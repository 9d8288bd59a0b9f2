-- ===== src/Cid/Laws.antt =====
-- Building an id and taking it apart.
use Prim.Native.Char.{Char, code}
use text.Mathlib.TextEquality.{Char-path}
use text.Mathlib.TextLemmas.{nil-append, cons-append}
use kubernetes_cpi.Base.{
  String, ◌<>◌, ◌≡◌, refl, ◌∙◌, sym, ap, ℕ, Bool-cases, ◌⊎◌, ◌↔◌, inl, inr, Bool, true, false, [],
  ◌∷◌, arith, nat_eq, ◌||◌,
}
use kubernetes_cpi.Exec.{returns, panics}
use kubernetes_cpi.Exec.Safe.{NoPanic}
use kubernetes_cpi.Cid.{split_n, new_vmcid, parse_vmcid, new_disk_cid, parse_disk_cid}

abbrev pub has_colon : String → Bool
has_colon String.[] = false
has_colon (String.◌∷◌ c s) = nat_eq (code c) b':' || has_colon s

split_n-append :
    (context rest : String)
    → has_colon context ≡ false
    → split_n (context <> (":" <> rest)) ≡ context ∷ rest ∷ []
unfolding split_n
split_n-append String.[] rest h = rw (nil-append, cons-append, nil-append) refl
split_n-append (String.◌∷◌ c s) rest h = elim (Bool-cases (nat_eq (code c) b':')) [
  | inl colon ↦ cc (rw colon at h)
  | inr other ↦ rw (cons-append, other) (rw (split_n-append s rest (rw other at h)))
]

abbrev Split : String → Type 0
Split s =
    (context : String) × (rest : String) × (split_n s ≡ context ∷ rest ∷ [])
    × (context <> (":" <> rest) ≡ s)
    × (has_colon context ≡ false)
    × (has_colon s ≡ true)

abbrev Whole : String → Type 0
Whole s = (split_n s ≡ s ∷ []) × (has_colon s ≡ false)

code_colon : (n : ℕ) → nat_eq n b':' ≡ true → n ≡ 58
code_colon n h = ground arith

colon_path : (c : Char) → nat_eq (code c) b':' ≡ true → (s : String) → ":" <> s ≡ String.◌∷◌ c s
colon_path c h s =
    rw (cons-append, nil-append)
      (ap (λ (d : Char). String.◌∷◌ d s) (sym (Char-path c ":" (code_colon (code c) h))))

one_or_two_parts : (s : String) → Split s ⊎ Whole s
unfolding split_n
one_or_two_parts String.[] = inr (refl, refl)
one_or_two_parts (String.◌∷◌ c s) = elim (Bool-cases (nat_eq (code c) b':')) [
  | inl colon ↦ inl ("", s, rw colon, nil-append _ ∙ colon_path c colon s, refl, rw colon)
  | inr other ↦ elim (one_or_two_parts s) [
    | inl (context, rest, parts, whole, before, colon) ↦ inl (
      String.◌∷◌ c context,
      rest,
      rw (other, parts),
      rw cons-append (ap (String.◌∷◌ c) whole),
      rw (other, before),
      rw (other, colon),
    )
    | inr (parts, colon) ↦ inr (rw (other, parts), rw (other, colon))
  ]
]

-- A VM id whose context has no colon is taken apart into the context and the agent id that it was
-- made of, colons in the agent id included.
pub parse-new_vmcid :
    (context agent_id : String)
    → has_colon context ≡ false
    → parse_vmcid (new_vmcid context agent_id) ≡ returns (context, agent_id)
unfolding parse_vmcid new_vmcid
parse-new_vmcid context agent_id h = rw (split_n-append context agent_id h)

-- What `ParseVMCID` takes out of a VM id, `NewVMCID` puts together again; the context has no colon.
pub new-parse_vmcid :
    (vmcid : String) {context agent_id : String}
    → parse_vmcid vmcid ≡ returns (context, agent_id)
    → (new_vmcid context agent_id ≡ vmcid) × (has_colon context ≡ false)
unfolding parse_vmcid new_vmcid
new-parse_vmcid vmcid h = elim (one_or_two_parts vmcid) [
  | inl (context, rest, parts, whole, before, colon) ↦ ground (arith, parts)
  | inr (parts, colon) ↦ cc (rw parts at h)
]

-- `ParseVMCID` takes a VM id apart into a context and an agent id exactly if the context has no colon
-- and `NewVMCID` makes the id of the two; the agent id may have colons.
pub parse_vmcid_iff :
    (vmcid context agent_id : String)
    → (parse_vmcid vmcid ≡ returns (context, agent_id))
      ↔ ((new_vmcid context agent_id ≡ vmcid) × (has_colon context ≡ false))
parse_vmcid_iff vmcid context agent_id = (
  new-parse_vmcid vmcid,
  λ (made, colon). ap parse_vmcid (sym made) ∙ parse-new_vmcid context agent_id colon,
)

-- `ParseVMCID` panics on exactly the ids with no colon.
pub parse_vmcid-panics :
    (vmcid : String) → (parse_vmcid vmcid ≡ panics "index out of range") ↔ (has_colon vmcid ≡ false)
unfolding parse_vmcid
parse_vmcid-panics vmcid = elim (one_or_two_parts vmcid) [
  | inl (context, rest, parts, whole, before, colon) ↦ (λ p. cc (rw parts at p), λ p. cc)
  | inr (parts, colon) ↦ (λ p. colon, λ p. rw parts)
]

-- A disk id is read as a VM id is, and built as one.
pub parse_disk_cid-eq : (cid : String) → parse_disk_cid cid ≡ parse_vmcid cid
unfolding parse_disk_cid parse_vmcid
parse_disk_cid-eq cid = refl

pub new_disk_cid-eq : (context id : String) → new_disk_cid context id ≡ new_vmcid context id
unfolding new_disk_cid new_vmcid
new_disk_cid-eq context id = refl

pub parse_vmcid-NoPanic : (vmcid : String) → has_colon vmcid ≡ true → NoPanic (parse_vmcid vmcid)
unfolding parse_vmcid
parse_vmcid-NoPanic vmcid h = elim (one_or_two_parts vmcid) [
  | inl (context, rest, parts, whole, before, colon) ↦ rw parts tt
  | inr (parts, colon) ↦ cc (sym h ∙ colon)
]

pub parse_disk_cid-NoPanic : (cid : String) → has_colon cid ≡ true → NoPanic (parse_disk_cid cid)
parse_disk_cid-NoPanic cid h = rw parse_disk_cid-eq (parse_vmcid-NoPanic cid h)
