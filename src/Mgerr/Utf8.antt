-- ===== src/Mgerr/Utf8.antt =====
-- internal/mgerr/utf8.go: CheckUTF8. utf8.ValidString is read byte by byte: `need` continuation bytes
-- are to come, the next of them between two bounds.
use macguffin.Prelude.{
  ℕ, ◌-◌, Bool, false, ◌&&◌, ◌||◌, [], ◌∷◌, Option, none, some, Bytes, codes, leb, ◌==◌,
  if◌then◌else◌,
}
use macguffin.Mgerr
use macguffin.Mgerr.{Fault}

abbrev pub within : ℕ → ℕ → ℕ → Bool
within low high c = leb low c && leb c high

-- utf8.ValidString after a prefix
unfoldable pub valid_from : ℕ → ℕ → ℕ → Bytes → Bool
valid_from need low high [] = need == 0
valid_from need low high (c ∷ s) =
    let next = λ (n : ℕ) (l : ℕ) (h : ℕ). valid_from n l h s in
    if need == 0
    then (if within 0 127 c
        then next 0 128 191
        else if within 194 223 c
        then next 1 128 191
        else if c == 224
        then next 2 160 191
        else if within 225 236 c || within 238 239 c
        then next 2 128 191
        else if c == 237
        then next 2 128 159
        else if c == 240
        then next 3 144 191
        else if within 241 243 c
        then next 3 128 191
        else if c == 244
        then next 3 128 143
        else false)
    else if within low high c
    then next (need - 1) 128 191
    else false

-- utf8.ValidString
unfoldable pub valid_string : Bytes → Bool
unfolding valid_from
valid_string s = valid_from 0 128 191 s

-- CheckUTF8
unfoldable pub check_utf8 : Bytes → Option Fault
unfolding valid_string
check_utf8 s =
    if valid_string s
    then none
    else some (record { category = Mgerr.usage; code = codes "invalid_utf8" })
