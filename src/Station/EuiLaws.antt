-- ===== src/Station/EuiLaws.antt =====
-- internal/backend/basicstation/structs/eui64.go: an identifier is read back from its text.
use mathlib.Core.Path.{subst}
use lora_gateway_bridge.Common.{
  ℕ, zero, suc, ◌+◌, ◌/◌, ◌%◌, ◌≡◌, ◌≢◌, ◌<◌, ◌≤◌, refl, sym, ap, ◌∙◌, ◌⊎◌, inl, inr, arith, drop,
  codes, leb, true, false, List, [], ◌∷◌, ◌++◌, All, length, Bytes, IsBytes, eui_bytes, Eui64, eui,
  ok, panic, ◌>>=◌, Option, some,
}
use lora_gateway_bridge.Common.Hex.{hex_digit, hex_encode, hex_decode, hex_decode-hex_encode}
use lora_gateway_bridge.Common.Int.{ℤ, pos, ◌+ℤ◌, int_laws}
use lora_gateway_bridge.Common.Strings.{split, split_one, split-append}
use lora_gateway_bridge.Station.Eui.{
  marshal_text, Symbol, eui_regexp, matches_here, match_string, set_block, pad_block, read_block,
  read_blocks, unmarshal_text,
}

-- a text that is too short for the pattern
matches_here_short :
    (ps : List Symbol) (text : Bytes) → length text < length ps → matches_here ps text ≡ false
unfolding matches_here
matches_here_short [] text h = absurd (omega (arith, h))
matches_here_short (p ∷ ps) [] h = refl
matches_here_short (p ∷ ps) (c ∷ text) h = ground (arith, matches_here_short ps text)

match_string_short :
    (ps : List Symbol) (text : Bytes) → length text < length ps → match_string ps text ≡ false
unfolding match_string
match_string_short ps [] h = matches_here_short ps [] h
match_string_short ps (c ∷ text) h =
    ground (arith, matches_here_short ps (c ∷ text), match_string_short ps text)

no_colon : (b : ℕ) → b < 256 → (hex_digit (b / 16) ≢ 58) × (hex_digit (b % 16) ≢ 58)
unfolding hex_digit
no_colon b h = ground arith

block_plain : (a b : ℕ) → a < 256 → b < 256 → All (λ c. c ≢ 58) (hex_encode (a ∷ b ∷ []))
unfolding hex_encode
block_plain a b ha hb =
    let (p, q) = no_colon a ha in let (r, t) = no_colon b hb in (p, (q, (r, (t, tt))))

block-read :
    (i : ℤ) (a b : ℕ) (id : Eui64)
    → a < 256
    → b < 256
    → read_block i (hex_encode (a ∷ b ∷ [])) id ≡ set_block i a b id
unfolding read_block pad_block hex_encode
block-read i a b id ha hb = rw (hex_decode-hex_encode (a ∷ b ∷ []) (ha, (hb, tt))) refl

marshal-split :
    (a b c d e f g h : ℕ)
    → IsBytes (a ∷ b ∷ c ∷ d ∷ e ∷ f ∷ g ∷ h ∷ [])
    → split b':' (marshal_text (eui a b c d e f g h))
      ≡ hex_encode (a ∷ b ∷ [])
        ∷ hex_encode (c ∷ d ∷ [])
        ∷ hex_encode (e ∷ f ∷ [])
        ∷ hex_encode (g ∷ h ∷ [])
        ∷ []
unfolding marshal_text
marshal-split a b c d e f g h w =
    split-append 58 (hex_encode (a ∷ b ∷ [])) _ (block_plain a b w.0 w.1.0)
    ∙ ap (λ l. hex_encode (a ∷ b ∷ []) ∷ l)
        (split-append 58 (hex_encode (c ∷ d ∷ [])) _ (block_plain c d w.1.1.0 w.1.1.1.0)
          ∙ ap (λ l. hex_encode (c ∷ d ∷ []) ∷ l)
              (split-append 58 (hex_encode (e ∷ f ∷ [])) _
                  (block_plain e f w.1.1.1.1.0 w.1.1.1.1.1.0)
                ∙ ap (λ l. hex_encode (e ∷ f ∷ []) ∷ l)
                    (split_one 58 (hex_encode (g ∷ h ∷ []))
                      (block_plain g h w.1.1.1.1.1.1.0 w.1.1.1.1.1.1.1.0))))

read_blocks-cons :
    (fuel : ℕ) (i : ℤ) (a b : ℕ) (blocks : List Bytes) (id id' : Eui64)
    → a < 256
    → b < 256
    → set_block i a b id ≡ ok id'
    → read_blocks (suc fuel) i (hex_encode (a ∷ b ∷ []) ∷ blocks) id
      ≡ read_blocks fuel (i +ℤ pos 1) blocks id'
unfolding read_blocks hex_encode
read_blocks-cons fuel i a b blocks id id' ha hb e =
    ap (λ r. r >>= λ t. read_blocks fuel (i +ℤ pos 1) blocks t) (block-read i a b id ha hb ∙ e)

marshal_length : (id : Eui64) → length (marshal_text id) ≡ 19
unfolding marshal_text hex_encode
marshal_length (eui a b c d e f g h) = refl

read_all :
    (a b c d e f g h : ℕ)
    → IsBytes (a ∷ b ∷ c ∷ d ∷ e ∷ f ∷ g ∷ h ∷ [])
    → read_blocks 4
        (pos 0)
        (hex_encode (a ∷ b ∷ [])
          ∷ hex_encode (c ∷ d ∷ [])
          ∷ hex_encode (e ∷ f ∷ [])
          ∷ hex_encode (g ∷ h ∷ [])
          ∷ [])
        (eui 0 0 0 0 0 0 0 0)
      ≡ ok (eui a b c d e f g h)
unfolding set_block ◌+ℤ◌ read_blocks
read_all a b c d e f g h w =
    read_blocks-cons 3 (pos 0) a b _ _ (eui a b 0 0 0 0 0 0) w.0 w.1.0 refl
    ∙ read_blocks-cons 2 (pos 1) c d _ _ (eui a b c d 0 0 0 0) w.1.1.0 w.1.1.1.0 refl
    ∙ read_blocks-cons 1 (pos 2) e f _ _ (eui a b c d e f 0 0) w.1.1.1.1.0 w.1.1.1.1.1.0 refl
    ∙ read_blocks-cons 0 (pos 3) g h _ _ (eui a b c d e f g h) w.1.1.1.1.1.1.0 w.1.1.1.1.1.1.1.0
        refl

-- The ID6 text of an identifier is read back as the identifier.
pub unmarshal_text-marshal_text :
    (parse_eui : Bytes → Option Eui64) (id : Eui64)
    → IsBytes (eui_bytes id)
    → unmarshal_text parse_eui (marshal_text id) ≡ ok id
unfolding unmarshal_text
unmarshal_text-marshal_text parse_eui (eui a b c d e f g h) w =
    rw
      (
        match_string_short eui_regexp (marshal_text (eui a b c d e f g h))
            (omega (arith, marshal_length (eui a b c d e f g h))),
        marshal-split a b c d e f g h w,
      )
      (read_all a b c d e f g h w)

-- A block with one to four characters, which are hexadecimal: with zeros in front, it makes two bytes.
pub record IsBlock (block : Bytes) : Type 0 where
  pub first : ℕ
  pub others : Bytes
  pub not_empty : block ≡ first ∷ others
  pub up_to_four : length block ≤ 4
  pub high : ℕ
  pub low : ℕ
  pub decoded : hex_decode (drop (length block) (codes "0000") ++ block) ≡ some (high ∷ low ∷ [])

le→leb : (a b : ℕ) → a ≤ b → leb a b ≡ true
le→leb a b h = ground arith

IsBlock-read :
    (i : ℤ) (block : Bytes) (id : Eui64) (w : IsBlock block)
    → read_block i block id ≡ set_block i w.high w.low id
unfolding read_block pad_block
IsBlock-read i block id w = rw (le→leb (length block) 4 w.up_to_four, w.decoded) refl

IsBlock-step :
    (fuel : ℕ) (i : ℤ) (block : Bytes) (blocks : List Bytes) (id : Eui64) (w : IsBlock block)
    → read_blocks (suc fuel) i (block ∷ blocks) id
      ≡ (set_block i w.high w.low id >>= λ id'. read_blocks fuel (i +ℤ pos 1) blocks id')
unfolding read_blocks
IsBlock-step fuel i block blocks id w =
    subst
      (λ l.
        read_blocks (suc fuel) i (l ∷ blocks) id
        ≡ (read_block i l id >>= λ id'. read_blocks fuel (i +ℤ pos 1) blocks id'))
      (sym w.not_empty) refl
    ∙ ap (λ r. r >>= λ id'. read_blocks fuel (i +ℤ pos 1) blocks id') (IsBlock-read i block id w)

set_block-cases :
    (i x y : ℕ) (id : Eui64)
    → ((i < 4) × ((id' : Eui64) × (set_block (pos i) x y id ≡ ok id')))
      ⊎ ((4 ≤ i) × (set_block (pos i) x y id ≡ panic))
unfolding set_block
set_block-cases zero x y (eui a b c d e f g h) = inl (omega arith, (_, refl))
set_block-cases (suc zero) x y (eui a b c d e f g h) = inl (omega arith, (_, refl))
set_block-cases (suc (suc zero)) x y (eui a b c d e f g h) = inl (omega arith, (_, refl))
set_block-cases (suc (suc (suc zero))) x y (eui a b c d e f g h) = inl (omega arith, (_, refl))
set_block-cases (suc (suc (suc (suc n)))) x y id = inr (omega arith, refl)

next_block : (i : ℕ) → pos i +ℤ pos 1 ≡ pos (i + 1)
next_block i = omega int_laws

-- the blocks from the i-th on
read_blocks-bounded :
    (i : ℕ) (blocks : List Bytes) (id : Eui64)
    → i ≤ 4
    → All IsBlock blocks
    → ((i + length blocks ≤ 4)
        × ((id' : Eui64) × (read_blocks (length blocks) (pos i) blocks id ≡ ok id')))
      ⊎ ((4 < i + length blocks) × (read_blocks (length blocks) (pos i) blocks id ≡ panic))
unfolding read_blocks
read_blocks-bounded i [] id h w = inl (omega arith, (id, refl))
read_blocks-bounded i (block ∷ blocks) id h w = elim (set_block-cases i w.0.high w.0.low id) [
  | inr (full, e) ↦ inr (
    omega (arith, full),
    IsBlock-step (length blocks) (pos i) block blocks id w.0
        ∙ ap (λ r. r >>= λ t. read_blocks (length blocks) (pos i +ℤ pos 1) blocks t) e,
  )
  | inl (room, (id', e)) ↦
      let first =
        IsBlock-step (length blocks) (pos i) block blocks id w.0
        ∙ ap (λ r. r >>= λ t. read_blocks (length blocks) (pos i +ℤ pos 1) blocks t) e
        ∙ ap (λ j. read_blocks (length blocks) j blocks id') (next_block i) in
      elim (read_blocks-bounded (i + 1) blocks id' (omega (arith, room)) w.1) [
        | inl (fits, (id'', e')) ↦ inl (omega (arith, fits), (id'', first ∙ e'))
        | inr (over, e') ↦ inr (omega (arith, over), first ∙ e')
      ]
]

-- On a text in which every block between colons has one to four hexadecimal characters, and which is not
-- of the form with dashes, UnmarshalText gives an identifier if there are at most four blocks, and
-- panics if there are more.
pub unmarshal_text-blocks :
    (parse_eui : Bytes → Option Eui64) (text : Bytes)
    → match_string eui_regexp text ≡ false
    → All IsBlock (split b':' text)
    → ((length (split b':' text) ≤ 4) × ((id : Eui64) × (unmarshal_text parse_eui text ≡ ok id)))
      ⊎ ((4 < length (split b':' text)) × (unmarshal_text parse_eui text ≡ panic))
unfolding unmarshal_text
unmarshal_text-blocks parse_eui text no_match w =
    rw no_match
      (elim (read_blocks-bounded 0 (split b':' text) (eui 0 0 0 0 0 0 0 0) (omega arith) w) [
        | inl (fits, done) ↦ inl (omega (arith, fits), done)
        | inr (over, e) ↦ inr (omega (arith, over), e)
      ])
