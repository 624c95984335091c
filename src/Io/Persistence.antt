-- ===== src/Io/Persistence.antt =====
-- What the loops of include/arc/io/tls_socket.h come to, however often OpenSSL asks to wait.
use libarc.Prelude.{
  ◌≡◌, refl, ap, ◌∙◌, Bool, true, false, ◌&&◌, Option, some, List, [], ◌∷◌, ◌++◌, arith,
}
use mathlib.Core.List.{append-nil}
use libarc.Prelude.Int.{pos, ltb_ℤ}
use libarc.Events.{IoType, read, write}
use libarc.Io.Retries.{
  Attempt, SslError, Verdict, waits, returned, aborted, Run, after_wait, retry, recv,
  recv_interruptible, recv_verdict,
}

-- Runs of calls that each want to wait, in the directions given, and are not interrupted.
abbrev pub AllWait : (Attempt → Verdict) → Bool → List Attempt → List IoType → Type 0
AllWait verdict can_abort [] ts = ts ≡ []
AllWait verdict can_abort (a ∷ rest) [] = ⊥
AllWait verdict can_abort (a ∷ rest) (t ∷ ts) =
    (verdict a ≡ waits t) × ((can_abort && a.is_abort) ≡ false) × AllWait verdict can_abort rest ts

abbrev pub after_waits : List IoType → Option Run → Option Run
after_waits [] r = r
after_waits (t ∷ ts) r = after_wait t (after_waits ts r)

retry-AllWait :
    (verdict : Attempt → Verdict) (can_abort : Bool) (calls rest : List Attempt) (ts : List IoType)
    → AllWait verdict can_abort calls ts
    → retry verdict can_abort (calls ++ rest) ≡ after_waits ts (retry verdict can_abort rest)
unfolding retry
retry-AllWait verdict can_abort [] rest ts e = rw e refl
retry-AllWait verdict can_abort (a ∷ calls) rest [] h = absurd h
retry-AllWait verdict can_abort (a ∷ calls) rest (t ∷ ts) (wants, on, h) =
    let later = retry-AllWait verdict can_abort calls rest ts h in ground arith

after_waits-some :
    (ts : List IoType) (r : Run)
    → after_waits ts (some r) ≡ some (record r { waited = ts ++ r.waited })
after_waits-some [] r = refl
after_waits-some (t ∷ ts) r = ap (after_wait t) (after_waits-some ts r)

-- A call of SSL_read that gave no bytes and wants to wait in the direction `t`.
abbrev pub wants : IoType → SslError
wants read = SslError.want_read
wants write = SslError.want_write

abbrev pub AllPending : List Attempt → List IoType → Type 0
AllPending [] ts = ts ≡ []
AllPending (a ∷ rest) [] = ⊥
AllPending (a ∷ rest) (t ∷ ts) =
    (ltb_ℤ (pos 0) a.ret ≡ false) × (a.error ≡ wants t) × (a.is_abort ≡ false) × AllPending rest ts

AllPending-AllWait :
    (can_abort : Bool) (calls : List Attempt) (ts : List IoType)
    → AllPending calls ts
    → AllWait recv_verdict can_abort calls ts
unfolding recv_verdict
AllPending-AllWait can_abort [] ts e = e
AllPending-AllWait can_abort (a ∷ rest) [] h = absurd h
AllPending-AllWait can_abort (a ∷ rest) (t ∷ ts) (none_read, wanted, on, h) =
    (wait_of t wanted, ground arith, AllPending-AllWait can_abort rest ts h)
  where
    wait_of : (t : IoType) → a.error ≡ wants t → recv_verdict a ≡ waits t
    wait_of read e = ground arith
    wait_of write e = ground arith

persists :
    (can_abort : Bool) (calls rest : List Attempt) (ts : List IoType) (a : Attempt)
    → AllPending calls ts
    → ltb_ℤ (pos 0) a.ret ≡ true
    → retry recv_verdict can_abort (calls ++ a ∷ rest)
      ≡ some (record { ending = returned a.ret; waited = ts; left = rest })
unfolding retry recv_verdict
persists can_abort calls rest ts a pending got =
    let all = AllPending-AllWait can_abort calls ts pending in
    retry-AllWait recv_verdict can_abort calls (a ∷ rest) ts all
    ∙ ap (after_waits ts) (ground arith)
    ∙ after_waits-some ts (record { ending = returned a.ret; waited = []; left = rest })
    ∙ rw append-nil refl

-- However often SSL_read asks to wait first, if no wait is interrupted and a call then gives bytes,
-- `Recv` waits once for each of the calls before, in the direction that it asked for, returns what
-- that call gave, and calls SSL_read no more; with a token or a timeout and without one.
pub recv_persists :
    (calls rest : List Attempt) (ts : List IoType) (a : Attempt)
    → AllPending calls ts
    → ltb_ℤ (pos 0) a.ret ≡ true
    → (recv (calls ++ a ∷ rest)
        ≡ some (record { ending = returned a.ret; waited = ts; left = rest }))
      × (recv_interruptible (calls ++ a ∷ rest)
          ≡ some (record { ending = returned a.ret; waited = ts; left = rest }))
unfolding recv recv_interruptible
recv_persists calls rest ts a pending got =
    (persists false calls rest ts a pending got, persists true calls rest ts a pending got)

-- If the wait that a call of SSL_read asked for is interrupted, `Recv` with a token or a timeout
-- ends there, as aborted, and makes no further call; the waits before it were not interrupted.
pub recv_aborts :
    (calls rest : List Attempt) (ts : List IoType) (a : Attempt) (t : IoType)
    → AllPending calls ts
    → ltb_ℤ (pos 0) a.ret ≡ false
    → a.error ≡ wants t
    → a.is_abort ≡ true
    → recv_interruptible (calls ++ a ∷ rest)
      ≡ some (record { ending = aborted; waited = ts ++ t ∷ []; left = rest })
unfolding recv_interruptible retry recv_verdict
recv_aborts calls rest ts a t pending none_read wanted interrupted =
    let all = AllPending-AllWait true calls ts pending in
    retry-AllWait recv_verdict true calls (a ∷ rest) ts all
    ∙ ap (after_waits ts) (elim t [ read ↦ ground arith | write ↦ ground arith ])
    ∙ after_waits-some ts (record { ending = aborted; waited = t ∷ []; left = rest })
