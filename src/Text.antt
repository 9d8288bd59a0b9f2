-- ===== src/Text.antt =====
-- What the program uses of Go's `strings` and `fmt`, on texts.
use Prim.Native.Char.{Char, code}
use Prim.Native.String.{char_at}
use kubernetes_cpi.Base.{
  ℕ, zero, suc, ◌-◌, ◌/◌, ◌%◌, String, ◌<>◌, Bool, true, false, ◌&&◌, List, [], ◌∷◌, leb, ltb,
  nat_eq, if◌then◌else◌,
}

-- strings.ToLower: `other` lowers what is not ASCII.
abbrev lower_char : (Char → Char) → Char → Char
lower_char other c =
    let n = code c in
    if leb b'A' n && leb n b'Z'
    then char_at "abcdefghijklmnopqrstuvwxyz" (n - b'A')
    else if leb n 127
    then c
    else other c

unfoldable pub to_lower : (Char → Char) → String → String
to_lower other String.[] = ""
to_lower other (String.◌∷◌ c s) = String.◌∷◌ (lower_char other c) (to_lower other s)

-- strings.Replace(v, ":", "_", -1)
unfoldable pub replace_colons : String → String
replace_colons String.[] = ""
replace_colons (String.◌∷◌ c s) =
    String.◌∷◌ (if nat_eq (code c) b':' then "_" else c) (replace_colons s)

-- strings.Join
unfoldable pub join : String → List String → String
join sep [] = ""
join sep (s ∷ []) = s
join sep (s ∷ t ∷ rest) = s <> (sep <> join sep (t ∷ rest))

-- fmt.Sprintf("%d", n), on fuel: each round takes one digit off.
unfoldable pub decimal_on : ℕ → ℕ → String
decimal_on zero n = ""
decimal_on (suc fuel) n =
    let more = decimal_on fuel (n / 10) in
    let digit : String = String.◌∷◌ (char_at "0123456789" (n % 10)) "" in
    if ltb n 10 then digit else more <> digit

unfoldable pub decimal : ℕ → String
unfolding decimal_on
decimal n = decimal_on (suc n) n

-- len(errs) == 0
abbrev pub is_empty {ℓ} : {A : Type ℓ} → List A → Bool
is_empty [] = true
is_empty (x ∷ xs) = false
