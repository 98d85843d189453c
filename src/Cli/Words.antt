-- ===== src/Cli/Words.antt =====
-- The standard library's operations on texts that the command line calls: split_whitespace, and
-- splitn(2, ':').
use aegis_oms_rs.Prelude.{
  ℕ, String, Bool, ◌||◌, ◌&&◌, leb, nat_beq, if◌then◌else◌, Option, none, some, List, [], ◌∷◌,
}
use Prim.Native.Char.{code}

-- The property White_Space of Unicode, by the number of the character.
unfoldable pub is_whitespace : ℕ → Bool
is_whitespace c =
    (leb 0x9 c && leb c 0xD)
    || (nat_beq c 0x20
        || (nat_beq c 0x85
            || (nat_beq c 0xA0
                || (nat_beq c 0x1680
                    || ((leb 0x2000 c && leb c 0x200A)
                        || (nat_beq c 0x2028
                            || (nat_beq c 0x2029
                                || (nat_beq c 0x202F
                                    || (nat_beq c 0x205F || nat_beq c 0x3000)))))))))

-- A word in front of the others, unless it is empty.
abbrev pub push_word : String → List String → List String
push_word String.[] words = words
push_word w words = w ∷ words

-- The text up to the first white space, and the words behind it.
unfoldable pub split_word : String → String × List String
unfolding is_whitespace
split_word String.[] = (String.[], [])
split_word (String.◌∷◌ c s) =
    let (w, words) = split_word s in
    if is_whitespace (code c) then (String.[], push_word w words) else (String.◌∷◌ c w, words)

unfoldable pub split_whitespace : String → List String
unfolding split_word
split_whitespace s = let (w, words) = split_word s in push_word w words

-- The texts around the first colon.
unfoldable pub split_colon : String → Option (String × String)
split_colon String.[] = none
split_colon (String.◌∷◌ c s) =
    let rest = split_colon s in
    if nat_beq (code c) 58
    then some (String.[], s)
    else elim rest [ none ↦ none | some (before, after) ↦ some (String.◌∷◌ c before, after) ]
