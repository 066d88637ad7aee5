-- ===== src/MapTiles/Images.antt =====
-- lib/http_client_tilefetch.cpp: the formats of images that are accepted.
use aowis_server_map.Prelude.{
  ◌≡◌, ◌↔◌, refl, true, ◌&&◌, [], ◌∷◌, ◌++◌, Bytes, codes, length, is_empty, take, drop, get_or,
  ltb, leb, ◌==◌, eqb, arith, ◌⊎◌, inl, inr, Bool-cases,
}
use aowis_server_map.Resume.Search.{starts_with, starts_with-append, starts_with-splits}
use aowis_server_map.MapTiles.HttpClient.{png_signature, has_supported_image_signature}

-- The three formats, by what the content begins with.
abbrev pub IsPng : Bytes → Type 0
IsPng content = (rest : Bytes) × (content ≡ png_signature ++ rest)

abbrev pub IsJpeg : Bytes → Type 0
IsJpeg content = (rest : Bytes) × (content ≡ 0xff ∷ 0xd8 ∷ 0xff ∷ rest)

abbrev pub IsWebp : Bytes → Type 0
IsWebp content =
    (size : Bytes) × (rest : Bytes) × (length size ≡ 4)
    × (content ≡ codes "RIFF" ++ (size ++ (codes "WEBP" ++ rest)))

jpeg→ :
    (content : Bytes)
    → leb 3 (length content)
        && get_or content 0 0 == 0xff
        && get_or content 1 0 == 0xd8
        && get_or content 2 0 == 0xff
      ≡ true
    → IsJpeg content
jpeg→ [] h = absurd (ground (arith, h))
jpeg→ (a ∷ []) h = absurd (ground (arith, h))
jpeg→ (a ∷ b ∷ []) h = absurd (ground (arith, h))
jpeg→ (a ∷ b ∷ c ∷ rest) h = (rest, ground (arith, h))

pub empty_length : (xs : Bytes) → is_empty xs ≡ ltb (length xs) 1
empty_length [] = refl
empty_length (x ∷ xs) = ground arith

pub empty_nil : (xs : Bytes) → is_empty xs ≡ true → xs ≡ []
empty_nil [] h = refl
empty_nil (x ∷ xs) h = ground (arith, h)

webp→ :
    (content : Bytes)
    → leb 12 (length content)
        && starts_with (codes "RIFF") content
        && eqb (take 4 (drop 8 content)) (codes "WEBP")
      ≡ true
    → IsWebp content
unfolding starts_with eqb
webp→ (a ∷ b ∷ c ∷ d ∷ e ∷ f ∷ g ∷ h ∷ i ∷ j ∷ k ∷ l ∷ rest) p =
    (e ∷ f ∷ g ∷ h ∷ [], rest, refl, ground (arith, p))
webp→ content p = absurd (ground (arith, p))

webp← :
    (content : Bytes)
    → IsWebp content
    → leb 12 (length content)
        && starts_with (codes "RIFF") content
        && eqb (take 4 (drop 8 content)) (codes "WEBP")
      ≡ true
unfolding starts_with eqb
webp← content (e ∷ f ∷ g ∷ h ∷ [], rest, four, same) = rw same (ground arith)
webp← content (size, rest, four, same) = absurd (omega (arith, four))

pub image_iff :
    (content : Bytes)
    → (has_supported_image_signature content ≡ true)
      ↔ (IsPng content ⊎ IsJpeg content ⊎ IsWebp content)
unfolding has_supported_image_signature
image_iff content = (to, from)
  where
    to :
        has_supported_image_signature content ≡ true
        → IsPng content ⊎ IsJpeg content ⊎ IsWebp content
    to h = elim (Bool-cases (starts_with png_signature content)) [
      | inl png ↦ inl (drop 8 content, starts_with-splits png_signature content png)
      | inr a ↦
          elim (Bool-cases (
            leb 3 (length content)
            && get_or content 0 0 == 0xff
            && get_or content 1 0 == 0xd8
            && get_or content 2 0 == 0xff)) [
              | inl jpeg ↦ inr (inl (jpeg→ content jpeg))
              | inr b ↦ inr (inr (webp→ content (rw (a, b) at h)))
            ]
    ]

    from :
        IsPng content ⊎ IsJpeg content ⊎ IsWebp content
        → has_supported_image_signature content ≡ true
    from (inl (rest, same)) = rw (same, starts_with-append png_signature rest) refl
    from (inr (inl (rest, same))) = rw same (ground arith)
    from (inr (inr webp)) = rw (webp← content webp) (ground arith)
