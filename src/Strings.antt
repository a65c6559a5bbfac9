-- ===== src/Strings.antt =====
-- Go's package strings, as far as the repository's packages use it, on ASCII text.
use shiva_blockchain.Base.{
  ℕ, zero, suc, ◌-◌, String, Bool, true, ◌&&◌, ◌||◌, List, [], ◌∷◌, str_eq, leb, ◌==◌,
  if◌then◌else◌, codes, has_prefix, str_append,
}
use Prim.Native.Char.{Char, code, nul}
use shiva_blockchain.Rpc.Amount.{is_space}

drop_spaces : String → String
drop_spaces String.[] = ""
drop_spaces (String.◌∷◌ ch s) =
    let rest = drop_spaces s in if is_space (code ch) then rest else String.◌∷◌ ch s

drop_spaces_right : String → String
drop_spaces_right String.[] = ""
drop_spaces_right (String.◌∷◌ ch s) =
    let rest = drop_spaces_right s in
    if is_space (code ch) && str_eq rest "" then "" else String.◌∷◌ ch rest

-- `strings.TrimSpace`
unfoldable pub trim_space : String → String
unfolding is_space drop_spaces drop_spaces_right
trim_space s = drop_spaces_right (drop_spaces s)

char_at : ℕ → String → Char
char_at i String.[] = nul
char_at zero (String.◌∷◌ ch s) = ch
char_at (suc i) (String.◌∷◌ ch s) = char_at i s

lower_char : Char → Char
lower_char ch =
    if leb b'A' (code ch) && leb (code ch) b'Z'
    then char_at (code ch - b'A') "abcdefghijklmnopqrstuvwxyz"
    else ch

upper_char : Char → Char
upper_char ch =
    if leb b'a' (code ch) && leb (code ch) b'z'
    then char_at (code ch - b'a') "ABCDEFGHIJKLMNOPQRSTUVWXYZ"
    else ch

-- `strings.ToLower`
unfoldable pub to_lower : String → String
unfolding char_at lower_char
to_lower String.[] = ""
to_lower (String.◌∷◌ ch s) = String.◌∷◌ (lower_char ch) (to_lower s)

-- `strings.ToUpper`
unfoldable pub to_upper : String → String
unfolding char_at upper_char
to_upper String.[] = ""
to_upper (String.◌∷◌ ch s) = String.◌∷◌ (upper_char ch) (to_upper s)

-- `strings.HasPrefix`
unfoldable pub starts : String → String → Bool
starts s p = has_prefix (codes s) (codes p)

-- `strings.TrimRight(s, "x")` of one character.
unfoldable pub trim_right : ℕ → String → String
trim_right x String.[] = ""
trim_right x (String.◌∷◌ ch s) =
    let rest = trim_right x s in if code ch == x && str_eq rest "" then "" else String.◌∷◌ ch rest

-- `strings.ReplaceAll(s, "x", "")` of one character.
unfoldable pub remove_char : ℕ → String → String
remove_char x String.[] = ""
remove_char x (String.◌∷◌ ch s) =
    let rest = remove_char x s in if code ch == x then rest else String.◌∷◌ ch rest

-- Puts a character before the first part.
grow : Char → List String → List String
grow ch [] = String.◌∷◌ ch "" ∷ []
grow ch (s ∷ l) = String.◌∷◌ ch s ∷ l

-- `strings.Split(s, "x")` of one character.
unfoldable pub split : ℕ → String → List String
unfolding grow
split x String.[] = "" ∷ []
split x (String.◌∷◌ ch s) = let rest = split x s in if code ch == x then "" ∷ rest else grow ch rest

-- `strings.Join(l, sep)`
unfoldable pub join : String → List String → String
join sep [] = ""
join sep (s ∷ []) = s
join sep (s ∷ t ∷ l) = str_append s (str_append sep (join sep (t ∷ l)))

-- `s[k:]`, where the program knows that it is long enough.
unfoldable pub drop_chars : ℕ → String → String
drop_chars zero s = s
drop_chars (suc k) String.[] = ""
drop_chars (suc k) (String.◌∷◌ ch s) = drop_chars k s

-- `s[:k]`
unfoldable pub take_chars : ℕ → String → String
take_chars zero s = ""
take_chars (suc k) String.[] = ""
take_chars (suc k) (String.◌∷◌ ch s) = String.◌∷◌ ch (take_chars k s)

-- `len(s)`
unfoldable pub len : String → ℕ
len String.[] = 0
len (String.◌∷◌ ch s) = suc (len s)

-- Whether all characters lie in a class of a regular expression.
unfoldable pub all_chars : (ℕ → Bool) → String → Bool
all_chars p String.[] = true
all_chars p (String.◌∷◌ ch s) = p (code ch) && all_chars p s

-- `strings.Contains(s, t)`
unfoldable pub contains : String → String → Bool
contains String.[] t = str_eq t ""
contains (String.◌∷◌ ch s) t = starts (String.◌∷◌ ch s) t || contains s t
