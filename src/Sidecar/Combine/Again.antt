-- ===== src/Sidecar/Combine/Again.antt =====
-- Combining twice, as every reconcile does after the first.
use kubevela_catalog.Base.{
  ℕ, suc, ◌+◌, String, List, [], ◌∷◌, Option, none, some, true, ◌≡◌, refl, sym, ap, ◌∙◌, arith,
  str_eq_refl, if◌then◌else◌, Bool-cases, inl, inr,
}
use kubevela_catalog.Base.Exec.{Result, ok}
use kubevela_catalog.K8s.{Error}
use kubevela_catalog.Sidecar.{Entry, Item}
use kubevela_catalog.Sidecar.Combine.{
  has_name, find_repeat, replace_or_append, combine_encoded, combine_containers,
}

-- The first entry with the name is replaced, or else the new one is put at the end.
abbrev pub insert : List Entry → String → Entry → List Entry
insert [] name new = new ∷ []
insert (e ∷ es) name new = if has_name name e then new ∷ es else e ∷ insert es name new

abbrev shift : Option ℕ → Option ℕ
shift none = none
shift (some i) = some (suc i)

find_shift :
    (name : String) (es : List Entry) (i : ℕ)
    → find_repeat name es (i + 1) ≡ shift (find_repeat name es i)
unfolding find_repeat
find_shift name [] i = refl
find_shift name (e ∷ es) i = elim (Bool-cases (has_name name e)) [
  | inl found ↦ rw found (ap some (omega arith))
  | inr other ↦ rw other (find_shift name es (i + 1))
]

replace-shift :
    (e new : Entry) (es : List Entry) (o : Option ℕ)
    → replace_or_append (e ∷ es) (shift o) new ≡ e ∷ replace_or_append es o new
unfolding replace_or_append
replace-shift e new es none = refl
replace-shift e new es (some i) = refl

replace-insert :
    (es : List Entry) (name : String) (new : Entry)
    → replace_or_append es (find_repeat name es 0) new ≡ insert es name new
unfolding find_repeat replace_or_append
replace-insert [] name new = refl
replace-insert (e ∷ es) name new = elim (Bool-cases (has_name name e)) [
  | inl found ↦ rw found refl
  | inr other ↦
      rw (other, find_shift name es 0, replace-shift e new es (find_repeat name es 0))
        (ap (λ rest. e ∷ rest) (replace-insert es name new))
]

insert_again :
    (es : List Entry) (name : String) (new : Entry)
    → has_name name new ≡ true
    → insert (insert es name new) name new ≡ insert es name new
insert_again [] name new own = rw own refl
insert_again (e ∷ es) name new own = elim (Bool-cases (has_name name e)) [
  | inl found ↦ rw (found, own) refl
  | inr other ↦ rw (other, other) (ap (λ rest. e ∷ rest) (insert_again es name new own))
]

module _ (encode : Item → Result Error Entry) (container : Item) (new : Entry) where
  -- A container that can be encoded replaces the first one with its name, or else is put at the
  -- end, and all others stay; a second time changes nothing, if the encoded container has the name
  -- of the container.
  pub combine_containers_lem :
      (es : List Entry)
      → encode container ≡ ok new
      → new.name ≡ some container.name
      → (combine_containers encode es container ≡ insert es container.name new)
        × (combine_containers encode (combine_containers encode es container) container
            ≡ combine_containers encode es container)
  unfolding combine_containers combine_encoded has_name
  combine_containers_lem es encoded named =
      let own : has_name container.name new ≡ true = ground (arith, str_eq_refl container.name) in
      (
        rw encoded (replace-insert es container.name new),
        rw encoded (
            replace-insert (replace_or_append es (find_repeat container.name es 0) new)
              container.name new
            ∙ ap (λ l. insert l container.name new) (replace-insert es container.name new)
            ∙ insert_again es container.name new own
            ∙ sym (replace-insert es container.name new)),
      )
