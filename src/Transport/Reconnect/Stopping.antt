-- ===== src/Transport/Reconnect/Stopping.antt =====
-- Stop: the loop ends, no callback follows, and no connection stays open.
use hao_vpn.Prelude.{
  ℕ, suc, ◌+◌, ◌-◌, ◌≤◌, ◌≡◌, ◌≢◌, refl, sym, subst, Bool, true, false, List, [], ◌∷◌, none, some,
  arith, ◌⊎◌, inl, inr, if◌then◌else◌, Option-cases, length,
}
use hao_vpn.Transport.Config.{Config}
use hao_vpn.Transport.Reconnect.{
  Pc, not_started, at_top, dialling, parted, pausing, backing_off, exited, dialled, storing, stored,
  connecting, waiting, Event, on_connect, Client, DialResult, start, without, close_conn,
  stop_signal, stop_close, loop_step, new_reconnect_client,
}
use hao_vpn.Transport.Reconnect.Steps.{Step, Reach}

-- How many rounds a stopped loop is from its end at most.
rank : Pc → ℕ
rank not_started = 0
rank at_top = 1
rank dialling = 3
rank parted = 1
rank pausing = 2
rank backing_off = 2
rank exited = 0
rank (dialled i) = 1
rank (storing i) = 4
rank (stored i) = 3
rank (connecting i) = 3
rank (waiting i) = 2

-- The calls of onConnect so far, and one more when the loop is at that call.
unfoldable pub connects : List Event → ℕ
connects [] = 0
connects (on_connect i ∷ log) = suc (connects log)
connects (_ ∷ log) = connects log

unfoldable pub pending : Pc → ℕ
pending (connecting i) = 1
pending _ = 0

-- A connection of the loop that may be open.
Held : Pc → List ℕ → Type 0
Held (dialled i) js = (js ≡ []) ⊎ (js ≡ i ∷ [])
Held (storing i) js = (js ≡ []) ⊎ (js ≡ i ∷ [])
Held (stored i) js = (js ≡ []) ⊎ (js ≡ i ∷ [])
Held (connecting i) js = (js ≡ []) ⊎ (js ≡ i ∷ [])
Held (waiting i) js = (js ≡ []) ⊎ (js ≡ i ∷ [])
Held _ js = js ≡ []

loop_step-stopped :
    (dial : DialResult) (ts : Bool) (r : Client) (p : Pc)
    → r.pc ≡ p
    → r.is_stopped ≡ true
    → (rank (loop_step dial ts r).pc ≤ rank p - 1)
      × ((loop_step dial ts r).is_stopped ≡ true)
      × (connects (loop_step dial ts r).log + pending (loop_step dial ts r).pc
          ≤ connects r.log + pending p)
unfolding loop_step rank connects pending
loop_step-stopped dial ts r p e h = ground (arith, e, h)

loop_step-Held :
    (dial : DialResult) (ts : Bool) (r : Client) (p : Pc)
    → r.pc ≡ p
    → Held p r.opened
    → Held (loop_step dial ts r).pc (loop_step dial ts r).opened
unfolding loop_step Held close_conn
loop_step-Held dial ts r p e h = ground (arith, e, h)

loop_step-started :
    (dial : DialResult) (ts : Bool) (r : Client) (p : Pc)
    → r.pc ≡ p
    → p ≢ not_started
    → (loop_step dial ts r).pc ≢ not_started
unfolding loop_step
loop_step-started dial ts r p e h = ground (arith, e, h)

without-Held : (p : Pc) (i : ℕ) (js : List ℕ) → Held p js → Held p (without i js)
unfolding Held
without-Held p i js h = ground (arith, h)

-- The loop does not run before Start.
Idle : Client → Type 0
Idle r = (r.started ≡ true) ⊎ ((r.started ≡ false) × (r.pc ≡ not_started))

loop_step-Idle :
    (dial : DialResult) (ts : Bool) (r : Client) (p : Pc)
    → r.pc ≡ p
    → Idle r
    → Idle (loop_step dial ts r)
unfolding loop_step Idle close_conn
loop_step-Idle dial ts r p e h = ground (arith, e, h)

Inv : Client → Type 0
Inv r = Idle r × Held r.pc r.opened

stop_close-none : (r : Client) → r.conn ≡ none → stop_close r ≡ r
unfolding stop_close
stop_close-none r e = simp (e, stop_close) refl

stop_close-some : (r : Client) (i : ℕ) → r.conn ≡ some i → stop_close r ≡ close_conn i r
unfolding stop_close
stop_close-some r i e = simp (e, stop_close) refl

stop_close-Inv : (r : Client) → Inv r → Inv (stop_close r)
unfolding stop_close close_conn Inv Idle
stop_close-Inv r h = elim (Option-cases r.conn) [
  | inl e ↦ subst Inv (sym (stop_close-none r e)) h
  | inr (i, e) ↦ subst Inv (sym (stop_close-some r i e)) (h.0, without-Held r.pc i r.opened h.1)
]

step-Inv : (r r' : Client) → Step r r' → Inv r → Inv r'
unfolding start stop_signal close_conn Inv Idle Held
step-Inv r _ Step.started h = ground (arith, h)
step-Inv r _ (Step.looped dial ts) h =
    (loop_step-Idle dial ts r r.pc refl h.0, loop_step-Held dial ts r r.pc refl h.1)
step-Inv r _ (Step.conn_closed i) h = (h.0, without-Held r.pc i r.opened h.1)
step-Inv r _ Step.stop_signalled h = h
step-Inv r _ Step.stop_closed h = stop_close-Inv r h

Reach-Inv : (c d : Client) → Reach c d → Inv c → Inv d
Reach-Inv c _ Reach.here h = h
Reach-Inv c d (Reach.later {c = m} r s) h = step-Inv m d s (Reach-Inv c m r h)

-- What a step can do to a stopped client.
step-stopped :
    (r r' : Client)
    → Step r r'
    → r.is_stopped ≡ true
    → (r'.is_stopped ≡ true) × (connects r'.log + pending r'.pc ≤ connects r.log + pending r.pc)
unfolding start stop_signal stop_close close_conn pending
step-stopped r _ Step.started h = ground (arith, h)
step-stopped r _ (Step.looped dial ts) h =
    let s = loop_step-stopped dial ts r r.pc refl h in (s.1, s.2)
step-stopped r _ (Step.conn_closed i) h = ground (arith, h)
step-stopped r _ Step.stop_signalled h = ground (arith, h)
step-stopped r _ Step.stop_closed h = ground (arith, h)

Reach-stopped :
    (c d : Client)
    → Reach c d
    → c.is_stopped ≡ true
    → (d.is_stopped ≡ true) × (connects d.log + pending d.pc ≤ connects c.log + pending c.pc)
Reach-stopped c _ Reach.here h = (h, omega arith)
Reach-stopped c d (Reach.later {c = m} r s) h =
    let before = Reach-stopped c m r h in
    let after = step-stopped m d s before.0 in (after.0, omega (arith, before.1, after.1))

rank-exited : (p : Pc) → p ≢ not_started → rank p ≤ 0 → p ≡ exited
unfolding rank
rank-exited p h le = ground (arith, h, le)

rank-le : (p : Pc) → rank p ≤ 4
unfolding rank
rank-le p = ground arith

Held-exited : (p : Pc) (js : List ℕ) → Held p js → p ≡ exited → js ≡ []
unfolding Held
Held-exited p js h e = ground (arith, h, e)

abbrev pub is_exited : Pc → Bool
is_exited exited = true
is_exited _ = false

length-Held : (p : Pc) (js : List ℕ) → Held p js → length js ≤ (if is_exited p then 0 else 1)
unfolding Held
length-Held p js h = ground (arith, h)

-- Rounds of the loop, whatever Dial comes to and whichever ready case a select takes.
unfoldable pub rounds : List (DialResult × Bool) → Client → Client
rounds [] r = r
rounds ((dial, ts) ∷ choices) r = rounds choices (loop_step dial ts r)

rounds-exited :
    (choices : List (DialResult × Bool)) (r : Client)
    → r.is_stopped ≡ true
    → r.pc ≢ not_started
    → rank r.pc ≤ length choices
    → (rounds choices r).pc ≡ exited
unfolding rounds
rounds-exited [] r h started le = rank-exited r.pc started le
rounds-exited ((dial, ts) ∷ choices) r h started le =
    let s = loop_step-stopped dial ts r r.pc refl h in
    rounds-exited choices (loop_step dial ts r) s.1 (loop_step-started dial ts r r.pc refl started)
      (omega (arith, s.0, le))

rounds-Inv : (choices : List (DialResult × Bool)) (r : Client) → Inv r → Inv (rounds choices r)
unfolding rounds
rounds-Inv [] r h = h
rounds-Inv ((dial, ts) ∷ choices) r h =
    rounds-Inv choices (loop_step dial ts r)
      (step-Inv r (loop_step dial ts r) (Step.looped dial ts) h)

new-Inv : (cfg : Config) (has_on_connect : Bool) → Inv (new_reconnect_client cfg has_on_connect)
unfolding new_reconnect_client Inv Idle Held
new-Inv cfg has_on_connect = ground arith

-- After Stop has signalled, onConnect is called at most once more, and only if the loop was at
-- that call already, whatever steps follow; and at most one connection of the loop is open, none
-- once the loop has ended.
pub Reach-stop :
    (cfg : Config) (has_on_connect : Bool) (c d : Client)
    → Reach (new_reconnect_client cfg has_on_connect) c
    → c.is_stopped ≡ true
    → Reach c d
    → (connects d.log ≤ connects c.log + pending c.pc)
      × (length d.opened ≤ (if is_exited d.pc then 0 else 1))
unfolding Inv
Reach-stop cfg has_on_connect c d r h r' =
    let start = new_reconnect_client cfg has_on_connect in
    let inv = Reach-Inv c d r' (Reach-Inv start c r (new-Inv cfg has_on_connect)) in
    (omega (arith, (Reach-stopped c d r' h).1), length-Held d.pc d.opened inv.1)

-- Once Stop has signalled, four rounds of a running reconnect loop end it, whatever its dials come
-- to and whichever ready case a select takes, and no connection of it stays open.
pub rounds-stop :
    (cfg : Config) (has_on_connect : Bool) (c : Client) (choices : List (DialResult × Bool))
    → Reach (new_reconnect_client cfg has_on_connect) c
    → c.is_stopped ≡ true
    → c.pc ≢ not_started
    → 4 ≤ length choices
    → ((rounds choices c).pc ≡ exited) × ((rounds choices c).opened ≡ [])
unfolding Inv
rounds-stop cfg has_on_connect c choices r h started enough =
    let start = new_reconnect_client cfg has_on_connect in
    let inv = rounds-Inv choices c (Reach-Inv start c r (new-Inv cfg has_on_connect)) in
    let done = rounds-exited choices c h started (omega (arith, rank-le c.pc, enough)) in
    (done, Held-exited (rounds choices c).pc (rounds choices c).opened inv.1 done)
