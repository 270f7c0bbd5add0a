-- ===== src/Waits/Entries.antt =====
-- The entries of the center after a request.
use mathlib.Core.Path.{subst}
use polarcloud.Prelude.{
  ℕ, ◌≡◌, refl, sym, ap, ◌∙◌, inl, inr, List, [], ◌∷◌, ◌++◌, Option, none, some, Option-cases, Text,
  eq_text, eq_text_sound, length, All-append, All-map, Bool-cases, if◌then◌else◌,
}
use polarcloud.Table.{
  lookup, put, delete, lookup-put, lookup-put_other, lookup-delete, lookup-delete_other,
}
use polarcloud.Waits.{Channel, Center, wait_on, wait_new, wait_request_in, wait_request}
use polarcloud.Waits.Steps.{
  Action, IsFor, or_no_tags, Sorted, get_elem?_last, IsFor-append, buffers_later,
}

-- The entry of a class and a tag.
abbrev pub entry : Text → Text → List (Text × List (Text × ℕ)) → Option ℕ
entry class tag requests = lookup tag (or_no_tags (lookup class requests))

entry-put :
    (class c tag : Text) (tag_map : List (Text × ℕ)) (requests : List (Text × List (Text × ℕ)))
    → entry class tag (put c tag_map requests)
      ≡ (if eq_text c class then lookup tag tag_map else entry class tag requests)
entry-put class c tag tag_map requests = elim (Bool-cases (eq_text c class)) [
  | inl same ↦ rw (same, eq_text_sound c class same, lookup-put class tag_map requests) refl
  | inr other ↦ rw (other, lookup-put_other class c tag_map requests other) refl
]

pub none-some : {A : Type 0} (x : A) → ¬ (none ≡ some x)
none-some x e = cc

-- Waiting on a channel that is for the class and the tag.
wait_on-Sorted :
    (acts : List Action) (a : Action) (class tag : Text) (n : ℕ) (s : Center)
    → IsFor s.channels n class tag
    → Sorted acts s
    → Sorted (a ∷ acts) (wait_on class tag n s)
unfolding wait_on
wait_on-Sorted acts a class tag n s h k = record {
  entries = k.entries;
  waiting = All-append _ s.waiters _ k.waiting (h, tt);
  buffers = buffers_later acts a s.channels k.buffers;
}

-- The channels of the tags of one class.
abbrev pub AreFor : List Channel → Text → List (Text × ℕ) → Type 0
AreFor channels class tag_map =
    (tag : Text) (n : ℕ) → lookup tag tag_map ≡ some n → IsFor channels n class tag

AreFor-put :
    (channels : List Channel) (class tag : Text) (n : ℕ) (tag_map : List (Text × ℕ))
    → IsFor channels n class tag
    → AreFor channels class tag_map
    → AreFor channels class (put tag n tag_map)
AreFor-put channels class tag n tag_map h k t m e = elim (Bool-cases (eq_text tag t)) [
  | inr other ↦ k t m (sym (lookup-put_other t tag n tag_map other) ∙ e)
  | inl same ↦
      let p : tag ≡ t = eq_text_sound tag t same in
      let f : some n ≡ some m =
        sym (lookup-put t n tag_map) ∙ ap (λ (u : Text). lookup t (put u n tag_map)) (sym p) ∙ e in
      let g : n ≡ m = cc in subst (λ (i : ℕ). IsFor channels i class t) g (rw⁻¹ p h)
]

pub AreFor-delete :
    (channels : List Channel) (class tag : Text) (tag_map : List (Text × ℕ))
    → AreFor channels class tag_map
    → AreFor channels class (delete tag tag_map)
AreFor-delete channels class tag tag_map k t m e = elim (Bool-cases (eq_text tag t)) [
  | inr other ↦ k t m (sym (lookup-delete_other t tag tag_map other) ∙ e)
  | inl same ↦
      let p : tag ≡ t = eq_text_sound tag t same in
      let f : none ≡ some m =
        sym (lookup-delete t tag_map)
        ∙ ap (λ (u : Text). lookup t (delete u tag_map)) (sym p)
        ∙ e in
      absurd (cc)
]

-- The entries of all classes after a change of the tags of one.
pub entries-put :
    (channels : List Channel) (class : Text) (tag_map : List (Text × ℕ))
    (requests : List (Text × List (Text × ℕ)))
    → AreFor channels class tag_map
    → ((c t : Text) (n : ℕ) → entry c t requests ≡ some n → IsFor channels n c t)
    → (c t : Text) (n : ℕ) → entry c t (put class tag_map requests) ≡ some n
    → IsFor channels n c t
entries-put channels class tag_map requests h k c t n e = elim (Bool-cases (eq_text class c)) [
  | inr other ↦ k c t n (
      ap (λ b. if b then lookup t tag_map else entry c t requests) (sym other)
      ∙ sym (entry-put c class t tag_map requests)
      ∙ e)
  | inl same ↦
      let p : class ≡ c = eq_text_sound class c same in
      rw⁻¹ p (
        h t n (
          ap (λ b. if b then lookup t tag_map else entry c t requests) (sym same)
          ∙ sym (entry-put c class t tag_map requests)
          ∙ e))
]

-- A new channel, with its entry.
new_channel-Sorted :
    (acts : List Action) (class tag : Text) (tag_map : List (Text × ℕ)) (s : Center)
    → AreFor s.channels class tag_map
    → Sorted acts s
    → Sorted acts (record s {
      wait_request = put class (put tag (length s.channels) tag_map) s.wait_request;
      channels = s.channels ++ (record { class = class; tag = tag; buffer = none }) ∷ [];
    })
new_channel-Sorted acts class tag tag_map s h k =
    let new : Channel = record { class = class; tag = tag; buffer = none } in
    record {
      entries =
          entries-put (s.channels ++ new ∷ []) class (put tag (length s.channels) tag_map)
            s.wait_request
            (AreFor-put (s.channels ++ new ∷ []) class tag (length s.channels) tag_map
              (new, get_elem?_last s.channels new, refl, refl)
              (λ t n e. IsFor-append s.channels (new ∷ []) n class t (h t n e)))
            (λ c t n e. IsFor-append s.channels (new ∷ []) n c t (k.entries c t n e));
      waiting =
          All-map _ _ s.waiters
            (λ w h. IsFor-append s.channels (new ∷ []) w.channel w.class w.tag h) k.waiting;
      buffers =
          All-append _ s.channels (new ∷ []) k.buffers ((λ bs e. absurd (none-some bs e)), tt);
    }

wait_new-Sorted :
    (acts : List Action) (a : Action) (class tag : Text) (tag_map : List (Text × ℕ)) (s : Center)
    → AreFor s.channels class tag_map
    → Sorted acts s
    → Sorted (a ∷ acts) (wait_new class tag tag_map s)
unfolding wait_new
wait_new-Sorted acts a class tag tag_map s h k =
    let new : Channel = record { class = class; tag = tag; buffer = none } in
    wait_on-Sorted acts a class tag (length s.channels) _
      (new, get_elem?_last s.channels new, refl, refl)
      (new_channel-Sorted acts class tag tag_map s h k)

-- The tags of a class that has an entry.
pub tags-AreFor :
    (acts : List Action) (class : Text) (tag_map : List (Text × ℕ)) (s : Center)
    → lookup class s.wait_request ≡ some tag_map
    → Sorted acts s
    → AreFor s.channels class tag_map
tags-AreFor acts class tag_map s found k t n e =
    k.entries class t n (ap (λ o. lookup t (or_no_tags o)) found ∙ e)

pub wait_request-Sorted :
    (acts : List Action) (a : Action) (class tag : Text) (s : Center)
    → Sorted acts s
    → Sorted (a ∷ acts) (wait_request class tag s)
unfolding wait_request wait_request_in lookup
wait_request-Sorted acts a class tag s k = elim (Option-cases (lookup class s.wait_request)) [
  | inl absent ↦
      rw absent (wait_new-Sorted acts a class tag [] s (λ t n e. absurd (none-some n e)) k)
  | inr (tag_map, found) ↦
      let h = tags-AreFor acts class tag_map s found k in
      elim (Option-cases (lookup tag tag_map)) [
        | inl new ↦
            rw (found, new, wait_request_in) (wait_new-Sorted acts a class tag tag_map s h k)
        | inr (n, old) ↦
            rw (found, old, wait_request_in) (wait_on-Sorted acts a class tag n s (h tag n old) k)
      ]
]
