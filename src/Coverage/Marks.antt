-- ===== src/Coverage/Marks.antt =====
-- lib/download_coverage.cpp: the array `seen` of `addProfile`.
use aowis_server_map.Prelude.{
  ℕ, zero, suc, ◌+◌, ◌≤◌, ◌≡◌, refl, Bool, true, false, ◌&&◌, List, [], ◌∷◌, if◌then◌else◌, ltb,
  leb, ◌==◌, arith,
}
use aowis_server_map.Prelude.Int.{pos, leb_ℤ}
use aowis_server_map.Coverage.Profile.{Tier, Checked, seen, mark_range}

abbrev pub bit : Bool → ℕ
bit true = 1
bit false = 0

-- Is the zoom in the tier's range?
abbrev pub in_tier : ℕ → Tier → Bool
in_tier z t = leb_ℤ t.minimum_zoom (pos z) && leb_ℤ (pos z) t.maximum_zoom

-- How many tiers have the zoom.
abbrev pub tiers_at : ℕ → List Tier → ℕ
tiers_at z [] = 0
tiers_at z (t ∷ rest) = bit (in_tier z t) + tiers_at z rest

abbrev pub inside : ℕ → ℕ → ℕ → ℕ
inside k z n = bit (leb z k && ltb k (z + n))

-- What a loop that succeeds has added to the array.
pub record Marked (s : ℕ → Bool) (more : ℕ → ℕ) (o : Checked) : Type 0 where
  pub after : ℕ → Bool
  pub returned : o ≡ seen after
  pub added : (k : ℕ) → bit (after k) ≡ bit (s k) + more k

pub mark_range-Marked :
    (left z : ℕ) (s : ℕ → Bool)
    → ((k : ℕ) → bit (s k) + inside k z left ≤ 1)
    → Marked s (λ k. inside k z left) (mark_range left z s)
unfolding mark_range
mark_range-Marked zero z s h = record { after = s; returned = refl; added = λ k. ground arith }
mark_range-Marked (suc left) z s h =
    let free : s z ≡ false = ground (arith, h z) in
    let m : Marked (λ k. if k == z then true else s k) (λ k. inside k (z + 1) left)
        (mark_range left (z + 1) (λ k. if k == z then true else s k)) =
      mark_range-Marked left (z + 1) (λ k. if k == z then true else s k)
        (λ k. ground (arith, h k)) in
    record {
      after = m.after;
      returned = rw free m.returned;
      added = λ k. ground (arith, m.added k, h k, free);
    }

pub mark_range-seen :
    (left z : ℕ) (s s' : ℕ → Bool) (k : ℕ)
    → mark_range left z s ≡ seen s'
    → bit (s' k) ≡ bit (s k) + inside k z left
unfolding mark_range
mark_range-seen zero z s s' k h = ground (arith, h)
mark_range-seen (suc left) z s s' k h =
    ground (arith, h, mark_range-seen left (z + 1) (λ k. if k == z then true else s k) s' k)
