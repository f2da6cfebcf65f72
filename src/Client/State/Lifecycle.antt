-- ===== src/Client/State/Lifecycle.antt =====
-- The course of a client's life: which states can follow which.
use serialrpc.Base.{
  ℕ, ◌≤◌, ◌≡◌, refl, subst, ◌≢◌, Bool, true, false, Option, some, none, arith, if◌then◌else◌,
}
use serialrpc.Io.{Io, Bytes, Source, Sink, Result, Error, ok}
use serialrpc.Client.Queue.{Calls}
use serialrpc.Client.State.{
  State, fresh, starting, running, closed, failing, failed, Client, Unit', check_failing,
  check_state, check_running, fail_from, fail, input_error_from, input_error, wait_at, wait,
  start_at, started_at, hello_done, close_from, close,
}

-- How far a client has come.
unfoldable pub rank : State → ℕ
rank fresh = 0
rank starting = 1
rank running = 2
rank closed = 3
rank failing = 3
rank failed = 3

accepted : (s : State) (e : Option Error) → 3 ≤ rank s → check_state s e ≢ ok tt
unfolding rank check_state check_failing
accepted fresh e h x = absurd (omega arith)
accepted starting e h x = absurd (omega arith)
accepted running e h x = absurd (omega arith)
accepted closed e h x = ground arith
accepted failing none h x = ground arith
accepted failing (some y) h x = ground arith
accepted failed e h x = ground arith

module _ {R : Type 0} where
  -- What a call, the input thread and the owner of a client do to it.
  pub data Step : Client R → Client R → Type 0 where
    call_fails :
        (c : Client R) (stringify : Error → Bytes) (fuel : ℕ) → Step c (fail stringify fuel c)
    input_fails :
        (c : Client R) (stringify : Error → Bytes) (fuel : ℕ) (e : Error)
        → Step c (input_error stringify fuel e c)
    waits : (c c' : Client R) (r : Result Unit') → wait c ≡ some (c', r) → Step c c'
    starts : (c c' : Client R) (r : Result Unit') → start_at c.state c ≡ some (c', r) → Step c c'
    start_ends : (c : Client R) → Step c (started_at c.state c).0
    says_hello : (c : Client R) → Step c (hello_done c.state c)
    closes : (c : Client R) (io : Io) → Step c (close io c).0
    -- requests and replies, which leave the state alone
    moves :
        (c : Client R) (source : Source) (sink : Sink) (calls : Calls R)
        → Step c (record c { source = source; sink = sink; calls = calls })

  pub data Reaches : Client R → Client R → Type 0 where
    here : (c : Client R) → Reaches c c
    then_step : (a b c : Client R) → Reaches a b → Step b c → Reaches a c

  rank-fail_from : (s : State) (c : Client R) → c.state ≡ s → rank s ≤ rank (fail_from s c).state
  unfolding rank fail_from
  rank-fail_from fresh c e = omega arith
  rank-fail_from starting c e = omega arith
  rank-fail_from running c e = omega arith
  rank-fail_from closed c e = omega arith
  rank-fail_from failing c e = rw (e) (omega arith)
  rank-fail_from failed c e = rw (e) (omega arith)

  rank_input_error :
      (s : State) (c : Client R) → c.state ≡ s → rank s ≤ rank (input_error_from s c).state
  unfolding rank input_error_from
  rank_input_error fresh c e = omega arith
  rank_input_error starting c e = omega arith
  rank_input_error running c e = omega arith
  rank_input_error closed c e = rw (e) (omega arith)
  rank_input_error failing c e = omega arith
  rank_input_error failed c e = rw (e) (omega arith)

  abbrev rank_after : Option (Client R × Result Unit') → ℕ
  unfolding rank
  rank_after none = 3
  rank_after (some (c, r)) = rank c.state

  rank_wait : (s : State) (c : Client R) → c.state ≡ s → rank s ≤ rank_after (wait_at s c)
  unfolding rank wait_at
  rank_wait fresh c e = omega arith
  rank_wait starting c e = omega arith
  rank_wait running c e = omega arith
  rank_wait closed c e = rw (e) (omega arith)
  rank_wait failing c e = omega arith
  rank_wait failed c e = rw (e) (omega arith)

  rank_start : (s : State) (c : Client R) → c.state ≡ s → rank s ≤ rank_after (start_at s c)
  unfolding rank start_at
  rank_start fresh c e = omega arith
  rank_start starting c e = omega arith
  rank_start running c e = rw (e) (omega arith)
  rank_start closed c e = rw (e) (omega arith)
  rank_start failing c e = omega arith
  rank_start failed c e = rw (e) (omega arith)

  rank_started : (s : State) (c : Client R) → c.state ≡ s → rank s ≤ rank (started_at s c).0.state
  unfolding rank started_at
  rank_started failing c e = omega arith
  rank_started fresh c e = rw (e) (omega arith)
  rank_started starting c e = rw (e) (omega arith)
  rank_started running c e = rw (e) (omega arith)
  rank_started closed c e = rw (e) (omega arith)
  rank_started failed c e = rw (e) (omega arith)

  rank_hello : (s : State) (c : Client R) → c.state ≡ s → rank s ≤ rank (hello_done s c).state
  unfolding rank hello_done
  rank_hello starting c e = omega arith
  rank_hello fresh c e = rw (e) (omega arith)
  rank_hello failing c e = rw (e) (omega arith)
  rank_hello running c e = rw (e) (omega arith)
  rank_hello closed c e = rw (e) (omega arith)
  rank_hello failed c e = rw (e) (omega arith)

  rank_close :
      (io : Io) (s : State) (c : Client R) → c.state ≡ s → rank s ≤ rank (close_from io s c).0.state
  unfolding rank close_from
  rank_close io fresh c e = omega arith
  rank_close io starting c e = omega arith
  rank_close io failing c e = omega arith
  rank_close io failed c e = omega arith
  rank_close io closed c e = rw (e) (omega arith)
  rank_close io running c e = ground arith

  rank_close_any :
      (io : Io) (c : Client R) (b : Bool)
      → rank c.state ≤ rank (if b then close_from io c.state c else (c, ok tt)).0.state
  rank_close_any io c true = rank_close io c.state c refl
  rank_close_any io c false = omega arith

  rank_Step : (c c' : Client R) → Step c c' → rank c.state ≤ rank c'.state
  unfolding fail input_error wait close rank_after
  rank_Step c _ (call_fails _ stringify fuel) = rank-fail_from c.state _ refl
  rank_Step c _ (input_fails _ stringify fuel e) = rank_input_error c.state _ refl
  rank_Step c c' (waits _ _ r e) =
      subst (λ o. rank c.state ≤ rank_after o) e (rank_wait c.state c refl)
  rank_Step c c' (starts _ _ r e) =
      subst (λ o. rank c.state ≤ rank_after o) e (rank_start c.state c refl)
  rank_Step c _ (start_ends _) = rank_started c.state c refl
  rank_Step c _ (says_hello _) = rank_hello c.state c refl
  rank_Step c _ (closes _ io) = rank_close_any io c c.has_conn
  rank_Step c _ (moves _ source sink calls) = omega arith

  -- Whatever happens to a client, it never goes back: not to New, not from Running to Starting, and not
  -- from Closed, Failing or Failed to a state before them.
  pub Reaches-rank : (a b : Client R) → Reaches a b → rank a.state ≤ rank b.state
  Reaches-rank a _ (here _) = omega arith
  Reaches-rank a c (then_step _ b _ r s) =
      let before = Reaches-rank a b r in let after = rank_Step b c s in omega arith

  -- Once a client is closed, failing or failed, no request passes `check_running` any more.
  pub Reaches-dead : (a b : Client R) → Reaches a b → rank a.state ≡ 3 → check_running b ≢ ok tt
  unfolding check_running
  Reaches-dead a b r dead = let h = Reaches-rank a b r in accepted b.state b.error (omega arith)
