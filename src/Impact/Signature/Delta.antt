-- ===== src/Impact/Signature/Delta.antt =====
-- The early cutoff: what counts as a change of a file's signature.
use apg.Prelude.{
  ◌≡◌, ◌↔◌, Bool, true, false, not, ◌&&◌, ◌||◌, List, [], ◌∷◌, Option, none, some, arith, contains,
  insert_if, contains-insert_if, difference-is_empty, Bool-ext, IsMap, lookup, lookup-none, has_key,
  has_key-lookup, ==_iff, nat_eq, list_eq,
}
use apg.Text.{Text}
use apg.Graph.{Graph}
use apg.Impact.Signature.{
  Signature, signature_eq, file_signature, signature_unchanged, delta_is_empty, signature_delta,
  SignatureMap, same_set, changed_entry, changed_or_added, vanished, signature_changed_files,
}

-- A file counts as unchanged between two graphs exactly if it has the same signatures in both.
pub signature_unchanged-contains :
    (old new : Graph) (path : Text)
    → (signature_unchanged old new path ≡ true) ↔ (
        (s : Signature)
        → contains (file_signature old path) s ≡ contains (file_signature new path) s)
unfolding signature_unchanged delta_is_empty signature_delta
signature_unchanged-contains old new path =
    let o = file_signature old path in
    let n = file_signature new path in
    let kept = difference-is_empty o n in
    let fresh = difference-is_empty n o in
    (
      λ h s. Bool-ext _ _ (kept.0 (ground arith) s) (fresh.0 (ground arith) s),
      λ same.
          ground (
            arith,
            kept.1 (λ a m. ground (arith, same a)),
            fresh.1 (λ a m. ground (arith, same a)),
          ),
    )

-- The signatures that two maps record for one file differ, or one of them records none.
abbrev pub entry_changed : Option (List Signature) → Option (List Signature) → Bool
entry_changed none none = false
entry_changed (some old) (some new) = not (same_set old new)
entry_changed _ _ = true

module _ (r : Text) where
  abbrev changed_or_added_at : SignatureMap → Option (List Signature) → Bool
  changed_or_added_at old none = false
  changed_or_added_at old (some new) = changed_entry (lookup r old) new

  changed_or_added-contains :
      (old news : SignatureMap) (out : List Text)
      → IsMap news
      → contains (changed_or_added old news out) r
        ≡ (contains out r || changed_or_added_at old (lookup r news))
  unfolding changed_or_added
  changed_or_added-contains old [] out h = ground arith
  changed_or_added-contains old ((rel, new) ∷ news) out h =
      let test = changed_entry (lookup rel old) new in
      ground (
        arith,
        changed_or_added-contains old news (insert_if test rel out) h.1,
        contains-insert_if test rel out r,
        lookup-none rel news h.0,
        ==_iff rel r,
      )

  vanished-contains :
      (new olds : SignatureMap) (out : List Text)
      → contains (vanished new olds out) r
        ≡ (contains out r || (has_key r olds && not (has_key r new)))
  unfolding vanished
  vanished-contains new [] out = ground arith
  vanished-contains new ((rel, old) ∷ olds) out =
      let test = not (has_key rel new) in
      ground (
        arith,
        vanished-contains new olds (insert_if test rel out),
        contains-insert_if test rel out r,
        ==_iff rel r,
      )

-- Exactly those files are reported whose recorded signatures differ, or which only one of the two
-- maps records.
pub signature_changed_files-contains :
    (old new : SignatureMap) (r : Text)
    → IsMap new
    → contains (signature_changed_files old new) r ≡ entry_changed (lookup r old) (lookup r new)
unfolding signature_changed_files changed_entry
signature_changed_files-contains old new r h = ground (
  arith,
  vanished-contains r new old (changed_or_added old new []),
  changed_or_added-contains r old new [] h,
  has_key-lookup r old,
  has_key-lookup r new,
)
