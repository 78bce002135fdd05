-- ===== src/Common/Pattern.antt =====
-- The regular expressions of the program over code points: runs of a class with a length range.
use Prim.Native.Nat.{ℕ}
use mathlib.Core.Bool.{Bool, true, false, ◌&&◌, ◌||◌}
use mathlib.Core.List.{List, [], ◌∷◌, reverse}
use chimp_maera.Common.Tests.{leb, eqb, if◌then◌else◌}
use chimp_maera.Common.Lists.{length, all}

abbrev pub is_lower : ℕ → Bool
is_lower c = leb b'a' c && leb c b'z'

abbrev pub is_upper : ℕ → Bool
is_upper c = leb b'A' c && leb c b'Z'

abbrev pub is_digit : ℕ → Bool
is_digit c = leb b'0' c && leb c b'9'

abbrev pub is_alnum : ℕ → Bool
is_alnum c = is_lower c || is_upper c || is_digit c

-- `[a-f0-9]`
abbrev pub is_hex : ℕ → Bool
is_hex c = is_digit c || (leb b'a' c && leb c b'f')

-- the characters of a class written as a text
abbrev pub one_of : List ℕ → ℕ → Bool
one_of [] c = false
one_of (x ∷ xs) c = eqb x c || one_of xs c

-- the whole text is a run of the class, of a length in the range
unfoldable pub run : (ℕ → Bool) → ℕ → ℕ → List ℕ → Bool
run class least most s = all class s && leb least (length s) && leb (length s) most

-- `^[first][later]{least,most}$`
unfoldable pub headed : (ℕ → Bool) → (ℕ → Bool) → ℕ → ℕ → List ℕ → Bool
unfolding run
headed first later least most [] = false
headed first later least most (c ∷ s) = first c && run later least most s

-- The text behind a literal prefix goes to the test; false without the prefix.
unfoldable pub after_prefix : List ℕ → (List ℕ → Bool) → List ℕ → Bool
after_prefix [] test s = test s
after_prefix (p ∷ ps) test [] = false
after_prefix (p ∷ ps) test (c ∷ s) = eqb p c && after_prefix ps test s

-- `^…MARK…$` where no class before the mark holds it: the text before the first mark and the text
-- behind it go each to its test. `seen` is what was read, newest first.
unfoldable pub around : ℕ → (List ℕ → Bool) → (List ℕ → Bool) → List ℕ → List ℕ → Bool
around mark before behind seen [] = false
around mark before behind seen (c ∷ s) =
    let later = around mark before behind (c ∷ seen) s in
    if eqb c mark then before (reverse seen) && behind s else later

-- `^[class]+={0,2}$`
abbrev padding : List ℕ → Bool
padding [] = true
padding (c ∷ []) = eqb c b'='
padding (c ∷ d ∷ []) = eqb c b'=' && eqb d b'='
padding _ = false

unfoldable pub padded : (ℕ → Bool) → List ℕ → Bool
padded class [] = false
padded class (c ∷ []) = class c
padded class (c ∷ d ∷ s) = let later = padded class (d ∷ s) in class c && (later || padding (d ∷ s))

-- the union of two classes
infixl 30 ◌or◌
abbrev pub ◌or◌ : (ℕ → Bool) → (ℕ → Bool) → ℕ → Bool
◌or◌ p q c = p c || q c
