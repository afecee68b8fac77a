-- ===== src/Protocol/Decoding.antt =====
-- Which messages `decode` of src/common/protocol.cpp takes apart, and how.
use space_shooter_c.Prelude.{
  ℕ, ◌≡◌, refl, Bool, true, false, not, ◌||◌, ◌&&◌, List, [], ◌∷◌, ◌++◌, arith, ◌==◌,
}
use space_shooter_c.Protocol.{split_space, skip_blanks, keyword_type, is_blank, decode}

abbrev pub has_space : List ℕ → Bool
has_space [] = false
has_space (b ∷ text) = b == 32 || has_space text

abbrev pub all_blank : List ℕ → Bool
all_blank [] = true
all_blank (b ∷ text) = is_blank b && all_blank text

-- Text that does not begin with a blank.
abbrev pub is_flush : List ℕ → Bool
is_flush [] = true
is_flush (b ∷ text) = not (is_blank b)

split-append :
    (keyword rest : List ℕ)
    → has_space keyword ≡ false
    → split_space (keyword ++ 32 ∷ rest) ≡ (keyword, rest)
unfolding split_space
split-append [] rest h = refl
split-append (b ∷ keyword) rest h = ground (arith, split-append keyword rest)

split-word : (keyword : List ℕ) → has_space keyword ≡ false → split_space keyword ≡ (keyword, [])
unfolding split_space
split-word [] h = refl
split-word (b ∷ keyword) h = ground (arith, split-word keyword)

skip-append :
    (blanks argument : List ℕ)
    → all_blank blanks ≡ true
    → is_flush argument ≡ true
    → skip_blanks (blanks ++ argument) ≡ argument
unfolding skip_blanks
skip-append [] [] h k = refl
skip-append [] (b ∷ argument) h k = ground arith
skip-append (b ∷ blanks) argument h k = ground (arith, skip-append blanks argument)

-- A keyword without spaces, a space, any blanks and an argument that does not begin with one: the
-- keyword alone decides the type, and the argument comes out whole, with the blanks inside it. A
-- keyword alone has an empty argument.
pub decode-words :
    (keyword blanks argument : List ℕ)
    → has_space keyword ≡ false
    → all_blank blanks ≡ true
    → is_flush argument ≡ true
    → (decode (keyword ++ 32 ∷ (blanks ++ argument))
        ≡ record { type = keyword_type keyword; argument = argument })
      × (decode keyword ≡ record { type = keyword_type keyword; argument = [] })
unfolding decode skip_blanks
decode-words keyword blanks argument h k l = (
  rw (decode, split-append keyword (blanks ++ argument) h, skip-append blanks argument k l) refl,
  rw (decode, split-word keyword h) refl,
)
