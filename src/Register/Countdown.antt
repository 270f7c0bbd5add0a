-- ===== src/Register/Countdown.antt =====
-- The countdown of the button that sends a code.
use polarcloud.Prelude.{
  ℕ, zero, suc, ◌<◌, ◌≡◌, ◌≢◌, refl, ap, ◌∙◌, inl, inr, ◌⊎◌, List, [], ◌∷◌, Option, none, some, pos,
  is_nat, Text, js, arith, Bool-cases, ◌==◌, ==_iff,
}
use polarcloud.Browser.{Host, set_html}
use polarcloud.Register.{Form, get_code, on_code_answer, clear_interval, decrement, set_dao_ji_shi}

-- Some ticks in a row.
pub ticks : ℕ → Form → Form
ticks zero f = f
ticks (suc n) f = ticks n (set_dao_ji_shi f)

tick_running :
    (m : ℕ) (f : Form)
    → f.leveltime ≡ pos (suc (suc m))
    → (set_dao_ji_shi f).leveltime ≡ pos (suc m)
unfolding set_dao_ji_shi
tick_running m f e = ground arith

tick_state :
    (m : ℕ) (f : Form)
    → f.leveltime ≡ pos (suc (suc m))
    → ((set_dao_ji_shi f).intervals ≡ f.intervals) × ((set_dao_ji_shi f).current ≡ f.current)
unfolding set_dao_ji_shi
tick_state m f e = ground arith

tick_last :
    (f : Form)
    → f.leveltime ≡ pos 1
    → ((set_dao_ji_shi f).leveltime ≡ pos 0)
      × ((set_dao_ji_shi f).intervals ≡ clear_interval f.current f.intervals)
      × ((set_dao_ji_shi f).calls ≡ set_html "huoquyanzhengma" (js "发送验证码") ∷ f.calls)
unfolding set_dao_ji_shi
tick_last f e = ground arith

-- The countdown from `m + 1` seconds: for `m` ticks the timers run on, and one tick later the current
-- timer is stopped and the button says that a code can be sent.
pub ticks-counts :
    (m : ℕ) (f : Form)
    → f.leveltime ≡ pos (suc m)
    → ((ticks m f).leveltime ≡ pos 1)
      × ((ticks m f).intervals ≡ f.intervals)
      × ((ticks m f).current ≡ f.current)
unfolding ticks
ticks-counts zero f e = (e, refl, refl)
ticks-counts (suc m) f e =
    let (a, b, c) = ticks-counts m (set_dao_ji_shi f) (tick_running m f e) in
    let (d, g) = tick_state m f e in (a, b ∙ d, c ∙ g)

ticks-suc : (n : ℕ) (f : Form) → ticks (suc n) f ≡ set_dao_ji_shi (ticks n f)
unfolding ticks
ticks-suc zero f = refl
ticks-suc (suc n) f = ticks-suc n (set_dao_ji_shi f)

-- The countdown of the only timer, to its end.
ticks_end :
    (m i : ℕ) (f : Form)
    → f.leveltime ≡ pos (suc m)
    → f.current ≡ some i
    → f.intervals ≡ i ∷ []
    → ((ticks m f).intervals ≡ i ∷ [])
      × ((ticks (suc m) f).intervals ≡ [])
      × ((ticks (suc m) f).calls ≡ set_html "huoquyanzhengma" (js "发送验证码") ∷ (ticks m f).calls)
unfolding clear_interval
ticks_end m i f e c n =
    let (a, b, d) = ticks-counts m f e in
    let (g, h, k) = tick_last (ticks m f) a in
    (b ∙ n, rw (ticks-suc m f) (h ∙ ground arith), rw (ticks-suc m f) k)

-- After a code was sent with no timer running, sixty ticks stop the timer, and no fewer: then none is
-- left, and the last thing that the button was told is that a code can be sent.
pub on_code_answer-ticks :
    (host : Host) (msg code : Text) (f g : Form)
    → g ≡ on_code_answer host 200 msg code f
    → f.intervals ≡ []
    → ((ticks 59 g).intervals ≡ f.next_id ∷ [])
      × ((ticks 60 g).intervals ≡ [])
      × ((ticks 60 g).calls ≡ set_html "huoquyanzhengma" (js "发送验证码") ∷ (ticks 59 g).calls)
unfolding on_code_answer clear_interval
on_code_answer-ticks host msg code f g e n =
    ticks_end 59 f.next_id g (rw e) (rw e) (rw e (ap (λ (l : List ℕ). f.next_id ∷ l) n))

-- The id is one of the running timers'.
abbrev pub Running : ℕ → List ℕ → Type 0
Running i [] = ⊥
Running i (j ∷ ids) = (i ≡ j) ⊎ Running i ids

-- What can happen to the form's timers: a tick of a running one, a code that is asked for, and an
-- answer to that.
pub data Step (host : Host) : Form → Form → Type 0 where
  tick : (f : Form) (i : ℕ) → Running i f.intervals → Step host f (set_dao_ji_shi f)
  asked : (f : Form) (tel : Text) → Step host f (get_code tel f)
  answered :
      (f : Form) (status : ℕ) (msg code : Text)
      → Step host f (on_code_answer host status msg code f)

pub data Reach (host : Host) (f : Form) : Form → Type 0 where
  here : Reach host f f
  next : {g h : Form} → Reach host f g → Step host g h → Reach host f h

-- A running timer that is no longer the current one.
pub record IsStale (i : ℕ) (f : Form) : Type 0 where
  pub runs : Running i f.intervals
  pub other : f.current ≢ some i
  pub known : i < f.next_id

Running-clear_interval :
    (c : Option ℕ) (i : ℕ) (ids : List ℕ)
    → Running i ids
    → c ≢ some i
    → Running i (clear_interval c ids)
unfolding clear_interval
Running-clear_interval none i ids r h = r
Running-clear_interval (some c) i [] r h = r
Running-clear_interval (some c) i (j ∷ ids) (inl e) h = elim (Bool-cases (c == j)) [
  | inl same ↦ absurd (h (ap (λ (n : ℕ). some n) (omega (arith, (==_iff c j).0 same, e))))
  | inr differ ↦ rw differ (inl e)
]
Running-clear_interval (some c) i (j ∷ ids) (inr r) h = elim (Bool-cases (c == j)) [
  | inl same ↦ rw same (Running-clear_interval (some c) i ids r h)
  | inr differ ↦ rw differ (inr (Running-clear_interval (some c) i ids r h))
]

tick-IsStale : (i : ℕ) (f : Form) → IsStale i f → IsStale i (set_dao_ji_shi f)
unfolding set_dao_ji_shi
tick-IsStale i f s = elim (Bool-cases (is_nat (decrement f.leveltime) 0)) [
  | inl ended ↦ rw ended (record {
    runs = Running-clear_interval f.current i f.intervals s.runs s.other;
    other = s.other;
    known = s.known;
  })
  | inr goes_on ↦ rw goes_on (record { runs = s.runs; other = s.other; known = s.known })
]

ne_of_lt : (i n : ℕ) → i < n → ◌≢◌ {A = Option ℕ} (some n) (some i)
ne_of_lt i n h e = ground arith

answered-IsStale :
    (host : Host) (i status : ℕ) (msg code : Text) (f : Form)
    → IsStale i f
    → IsStale i (on_code_answer host status msg code f)
unfolding on_code_answer
answered-IsStale host i status msg code f s = elim (Bool-cases (status == 200)) [
  | inr refused ↦ rw refused (record { runs = s.runs; other = s.other; known = s.known })
  | inl ok ↦ rw ok (record {
    runs = inr s.runs;
    other = ne_of_lt i f.next_id s.known;
    known = omega (arith, s.known);
  })
]

Step-IsStale : {host : Host} {f g : Form} {i : ℕ} → Step host f g → IsStale i f → IsStale i g
unfolding get_code
Step-IsStale (tick f j r) s = tick-IsStale _ f s
Step-IsStale (asked f tel) s = record { runs = s.runs; other = s.other; known = s.known }
Step-IsStale (answered f status msg code) s = answered-IsStale _ _ status msg code f s

-- A timer that is no longer the current one is never stopped: it runs in every later state.
pub Reach-IsStale : {host : Host} {f g : Form} {i : ℕ} → Reach host f g → IsStale i f → IsStale i g
Reach-IsStale here s = s
Reach-IsStale (next r st) s = Step-IsStale st (Reach-IsStale r s)

start :
    (host : Host) (msg code : Text) (f : Form) (i : ℕ)
    → Running i f.intervals
    → i < f.next_id
    → IsStale i (on_code_answer host 200 msg code f)
unfolding on_code_answer
start host msg code f i r k = record {
  runs = inr r;
  other = ne_of_lt i f.next_id k;
  known = omega arith;
}

-- A second code that is sent while the timer of the first runs (any timer, whose id was given out)
-- leaves that timer running for ever, whatever is asked, answered and counted later.
pub on_code_answer-Running :
    (host : Host) (msg code : Text) (f g : Form) (i : ℕ)
    → Running i f.intervals
    → i < f.next_id
    → Reach host (on_code_answer host 200 msg code f) g
    → Running i g.intervals
on_code_answer-Running host msg code f g i r k reach =
    (Reach-IsStale reach (start host msg code f i r k)).runs
