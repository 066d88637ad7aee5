-- ===== src/Prelude/Searches.antt =====
-- Loops that look for an element of a list, and the Boolean operations of tests with a meaning.
use aowis_server_map.Prelude.{
  ◌≡◌, ◌↔◌, refl, Bool, true, false, ◌||◌, ◌&&◌, &&-true, List, [], ◌∷◌, Text, eqb, eqb→eq,
  eqb_self, arith, ◌⊎◌, inl, inr,
}

-- Some element of the list.
abbrev pub Any {ℓ} : {A : Type ℓ} → (A → Type 0) → List A → Type 0
Any P [] = ⊥
Any P (x ∷ xs) = P x ⊎ Any P xs

pub or_iff :
    (a b : Bool) {P Q : Type 0} → (a ≡ true) ↔ P → (b ≡ true) ↔ Q → (a || b ≡ true) ↔ (P ⊎ Q)
or_iff true b p q = (λ h. inl (p.0 refl), λ h. refl)
or_iff false b p q =
    (λ h. inr (q.0 h), λ h. elim h [ inl x ↦ absurd (ground (arith, p.1 x)) | inr y ↦ q.1 y ])

pub and_iff :
    (a b : Bool) {P Q : Type 0} → (a ≡ true) ↔ P → (b ≡ true) ↔ Q → (a && b ≡ true) ↔ (P × Q)
and_iff a b p q =
    (λ h. (p.0 (&&-true a b h).0, q.0 (&&-true a b h).1), λ (x, y). rw (p.1 x, q.1 y) refl)

-- A loop that looks for an element that passes a test.
pub Any-iff {ℓ} :
    {A : Type ℓ} (test : A → Bool) (loop : List A → Bool) (P : A → Type 0)
    → loop [] ≡ false
    → ((x : A) (l : List A) → loop (x ∷ l) ≡ test x || loop l)
    → ((x : A) → (test x ≡ true) ↔ P x)
    → (l : List A) → (loop l ≡ true) ↔ Any P l
Any-iff test loop P stop more each [] = (λ h. absurd (ground (arith, h, stop)), λ h. absurd h)
Any-iff test loop P stop more each (x ∷ l) =
    rw more (or_iff (test x) (loop l) (each x) (Any-iff test loop P stop more each l))

pub text_iff : (a b : Text) → (eqb a b ≡ true) ↔ (a ≡ b)
text_iff a b = (λ h. eqb→eq a b h, λ e. rw e (eqb_self b))
