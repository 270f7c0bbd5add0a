-- ===== src/Waits/Answers.antt =====
-- Which answer a request gets.
use mathlib.Core.List.{Memᴰ}
use mathlib.Core.Path.{subst}
use polarcloud.Prelude.{
  ℕ, ◌≡◌, refl, sym, ap, ◌∙◌, ◌⊎◌, inl, inr, List, ◌∷◌, Option, none, some, Option-cases, Text,
  All-get_elem?, All-map,
}
use polarcloud.Table.{lookup, delete}
use polarcloud.Waits.{Channel, Waiter, Center, put_value, offer, response_wait, receive, time_out}
use polarcloud.Waits.Steps.{
  Action, asked, answered, received, gave_up, Step, asks, answers, receives, gives_up, History,
  at_start, then_step, IsFor, Sorted, IsFor-offer, IsFor-emptied, All-offer, All-emptied,
  All-without, buffers_later,
}
use polarcloud.Waits.Entries.{
  none-some, tags-AreFor, wait_request-Sorted, AreFor-delete, entries-put,
}

some_same : {A : Type 0} {x y : A} → some x ≡ some y → x ≡ y
some_same e = cc

put_value_cases :
    (bs b : List ℕ) (o : Option (List ℕ)) → put_value bs o ≡ some b → (o ≡ some b) ⊎ (b ≡ bs)
put_value_cases bs b none e = inr (sym (some_same e))
put_value_cases bs b (some old) e = inl e

filled :
    (acts : List Action) (class tag : Text) (bs : List ℕ) (d : Channel)
    → d.class ≡ class
    → d.tag ≡ tag
    → ((b : List ℕ)
        → d.buffer ≡ some b
        → Memᴰ (answered d.class d.tag b) (answered class tag bs ∷ acts))
    → (b : List ℕ) → put_value bs d.buffer ≡ some b
    → Memᴰ (answered d.class d.tag b) (answered class tag bs ∷ acts)
filled acts class tag bs d p q h b g = elim (put_value_cases bs b d.buffer g) [
  | inl old ↦ h b old
  | inr new ↦ Memᴰ.head (rw (p, q, new) refl)
]

response_wait-Sorted :
    (acts : List Action) (class tag : Text) (bs : List ℕ) (s : Center)
    → Sorted acts s
    → Sorted (answered class tag bs ∷ acts) (response_wait class tag bs s)
unfolding response_wait
response_wait-Sorted acts class tag bs s k = elim (Option-cases (lookup class s.wait_request)) [
  | inl absent ↦ rw (absent, response_wait) (later k)
  | inr (tag_map, found) ↦ elim (Option-cases (lookup tag tag_map)) [
    | inl new ↦ rw (found, new, response_wait) (later k)
    | inr (n, old) ↦
        rw (found, old, response_wait)
          (offered n (tags-AreFor acts class tag_map s found k tag n old))
  ]
]
  where
    later : Sorted acts s → Sorted (answered class tag bs ∷ acts) s
    later h = record {
      entries = h.entries;
      waiting = h.waiting;
      buffers = buffers_later acts (answered class tag bs) s.channels h.buffers;
    }

    offered :
        (n : ℕ)
        → IsFor s.channels n class tag
        → Sorted (answered class tag bs ∷ acts) (record s { channels = offer bs n s.channels })
    offered n (c, e, p, q) = record {
      entries = λ d t m f. IsFor-offer bs n m s.channels d t (k.entries d t m f);
      waiting =
          All-map _ _ s.waiters (λ w h. IsFor-offer bs n w.channel s.channels w.class w.tag h)
            k.waiting;
      buffers =
          All-offer _ bs n s.channels
            (λ d f h b g.
              let same : d ≡ c = some_same (sym f ∙ e) in
              filled acts class tag bs d (ap (λ (x : Channel). x.class) same ∙ p)
                (ap (λ (x : Channel). x.tag) same ∙ q) h b g)
            (buffers_later acts (answered class tag bs) s.channels k.buffers);
    }

receive-Sorted :
    (acts : List Action) (a : Action) (n : ℕ) (w : Waiter) (s : Center)
    → Sorted acts s
    → Sorted (a ∷ acts) (receive n w s)
unfolding receive
receive-Sorted acts a n w s k = record {
  entries = λ c t m f. IsFor-emptied w.channel m s.channels c t (k.entries c t m f);
  waiting = All-without _ n s.waiters (
      All-map _ _ s.waiters (λ v h. IsFor-emptied w.channel v.channel s.channels v.class v.tag h)
        k.waiting);
  buffers =
      All-emptied _ w.channel s.channels (λ c bs e. absurd (none-some bs e))
        (buffers_later acts a s.channels k.buffers);
}

time_out-Sorted :
    (acts : List Action) (a : Action) (n : ℕ) (w : Waiter) (s : Center)
    → Sorted acts s
    → Sorted (a ∷ acts) (time_out n w s)
unfolding time_out
time_out-Sorted acts a n w s k = elim (Option-cases (lookup w.class s.wait_request)) [
  | inl absent ↦
      rw (absent, time_out)
        (record {
          entries = k.entries;
          waiting = All-without _ n s.waiters k.waiting;
          buffers = buffers_later acts a s.channels k.buffers;
        })
  | inr (tag_map, found) ↦
      rw (found, time_out)
        (record {
          entries =
              entries-put s.channels w.class (delete w.tag tag_map) s.wait_request
                (AreFor-delete s.channels w.class w.tag tag_map
                  (tags-AreFor acts w.class tag_map s found k))
                k.entries;
          waiting = All-without _ n s.waiters k.waiting;
          buffers = buffers_later acts a s.channels k.buffers;
        })
]

step-Sorted :
    (acts : List Action) (a : Action) (s t : Center)
    → Step s a t
    → Sorted acts s
    → Sorted (a ∷ acts) t
step-Sorted acts _ _ _ (asks s class tag) k =
    wait_request-Sorted acts (asked class tag) class tag s k
step-Sorted acts _ _ _ (answers s class tag bs) k = response_wait-Sorted acts class tag bs s k
step-Sorted acts _ _ _ (receives s n w c bs e f g) k =
    receive-Sorted acts (received w.class w.tag bs) n w s k
step-Sorted acts _ _ _ (gives_up s n w e) k = time_out-Sorted acts (gave_up w.class w.tag) n w s k

-- After any steps from the start every entry and every waiter has a channel of its class and tag, and
-- every buffered answer was given for those of its channel.
pub History-Sorted : (acts : List Action) (s : Center) → History acts s → Sorted acts s
unfolding lookup
History-Sorted _ _ at_start = record {
  entries = λ c t n e. absurd (none-some n e);
  waiting = tt;
  buffers = tt;
}
History-Sorted _ _ (then_step before a s t h step) =
    step-Sorted before a s t step (History-Sorted before s h)

-- What a step takes was given before.
abbrev Given : List Action → Action → Type 0
Given acts (received class tag bs) = Memᴰ (answered class tag bs) acts
Given acts (asked class tag) = Unit
Given acts (answered class tag bs) = Unit
Given acts (gave_up class tag) = Unit

step-Given :
    (acts : List Action) (a : Action) (s t : Center) → Step s a t → Sorted acts s → Given acts a
step-Given acts _ _ _ (asks s class tag) k = tt
step-Given acts _ _ _ (answers s class tag bs) k = tt
step-Given acts _ _ _ (gives_up s n w e) k = tt
step-Given acts _ _ _ (receives s n w c bs e f g) k =
    let (d, h, p, q) =
      All-get_elem? (λ v. IsFor s.channels v.channel v.class v.tag) s.waiters n w e k.waiting in
    let same : d ≡ c = some_same (sym h ∙ f) in
    let r : c.class ≡ w.class = ap (λ (x : Channel). x.class) (sym same) ∙ p in
    let t : c.tag ≡ w.tag = ap (λ (x : Channel). x.tag) (sym same) ∙ q in
    subst (λ (a : Action). Memᴰ a acts)
      (ap (λ (x : Text). answered x c.tag bs) r ∙ ap (λ (x : Text). answered w.class x bs) t)
      (All-get_elem? _ s.channels w.channel c f k.buffers bs g)

History-Given :
    (acts more : List Action) (a : Action) (s : Center)
    → History acts s
    → acts ≡ a ∷ more
    → Given more a
History-Given _ more a _ at_start e = absurd (cc)
History-Given _ more a _ (then_step before b s t h step) e =
    let p : b ≡ a = cc in
    let q : before ≡ more = cc in
    subst (λ (x : Action). Given more x) p
      (subst (λ (x : List Action). Given x b) q
        (step-Given before b s t step (History-Sorted before s h)))

-- Every answer that a request gets was given for its class and its tag, some time before.
pub received-answered :
    (acts : List Action) (s : Center) (class tag : Text) (bs : List ℕ)
    → History (received class tag bs ∷ acts) s
    → Memᴰ (answered class tag bs) acts
received-answered acts s class tag bs h =
    History-Given (received class tag bs ∷ acts) acts (received class tag bs) s h refl
