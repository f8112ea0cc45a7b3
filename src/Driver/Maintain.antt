-- ===== src/Driver/Maintain.antt =====
-- A property of the device that every part of a method keeps is kept by the method, whatever its
-- result: one rule for each way of composing methods in Host.
use r_compatible_driver_v.Base.{Bool, true, false, ◌∷◌, ◌==◌, inl, inr, Bool-cases}
use r_compatible_driver_v.Driver.Host.{
  Call, Answer, Platform, Code, Reply, ok, err, crash, Device, M, Do, ◌>>=◌, ◌>>◌, pure, fail,
  crashed, get, modify, unless, when, needs, choose, outcome, attempt, cleaned, on_failure, call,
  accept, try, continue,
}

-- The method leaves a device with the property if it finds one with it.
pub record Maintains {W S A : Type 0} (P : Device W S → Type 0) (m : M W S A) : Type 0 where
  pub holds : (d : Device W S) → P d → P (m d).1

module _ {W S : Type 0} (P : Device W S → Type 0) where
  outcome_keeps : {A : Type 0} (x : Reply A × Device W S) → P x.1 → P (outcome x).1
  outcome_keeps (ok a, d) h = h
  outcome_keeps (err c, d) h = h
  outcome_keeps (crash, d) h = h

  accept_keeps : (a : Answer) (d : Device W S) → P d → P (accept a d).1
  unfolding accept
  accept_keeps a d h = elim (Bool-cases (a.status == 0)) [ inl e ↦ rw e h | inr e ↦ rw e h ]

module _ {W S : Type 0} {P : Device W S → Type 0} where
  continue_keeps :
      {A B : Type 0} (f : A → M W S B) (x : Reply A × Device W S)
      → P x.1
      → ((a : A) → Maintains P (f a))
      → P (continue f x).1
  continue_keeps f (ok a, d) h k = (k a).holds d h
  continue_keeps f (err c, d) h k = h
  continue_keeps f (crash, d) h k = h

  pub keep_bind :
      {A B : Type 0} {m : M W S A} {f : A → M W S B}
      → Maintains P m
      → ((a : A) → Maintains P (f a))
      → Maintains P (m >>= f)
  unfolding ◌>>=◌
  keep_bind {m = m} {f = f} hm hf = record {
    holds = λ d h. continue_keeps f (m d) (hm.holds d h) hf;
  }

  infixr 5 ◌⨟◌
  pub ◌⨟◌ :
      {A B : Type 0} {m : M W S A} {k : M W S B}
      → Maintains P m
      → Maintains P k
      → Maintains P (m >> k)
  hm ⨟ hk = keep_bind hm (λ _. hk)

  pub keep_pure : {A : Type 0} (a : A) → Maintains P (pure {W = W} {S = S} a)
  unfolding pure
  keep_pure a = record { holds = λ d h. h }

  pub keep_fail : {A : Type 0} (c : Code) → Maintains P (fail {W = W} {S = S} {A = A} c)
  unfolding fail
  keep_fail c = record { holds = λ d h. h }

  pub keep_crashed : {A : Type 0} → Maintains P (crashed {W = W} {S = S} {A = A})
  unfolding crashed
  keep_crashed = record { holds = λ d h. h }

  pub keep_get : Maintains P get
  unfolding get
  keep_get = record { holds = λ d h. h }

  pub keep_modify :
      (f : Device W S → Device W S) → ((d : Device W S) → P d → P (f d)) → Maintains P (modify f)
  unfolding modify
  keep_modify f k = record { holds = k }

  pub keep_choose :
      (b : Bool) {A : Type 0} {m n : M W S A}
      → Maintains P m
      → Maintains P n
      → Maintains P (choose b m n)
  unfolding choose
  keep_choose true hm hn = record { holds = λ d h. hm.holds d h }
  keep_choose false hm hn = record { holds = λ d h. hn.holds d h }

  pub keep_when : (b : Bool) {m : Do W S} → Maintains P m → Maintains P (when b m)
  unfolding when
  keep_when true hm = record { holds = λ d h. hm.holds d h }
  keep_when false hm = record { holds = λ d h. h }

  pub keep_skip : (m : Do W S) → Maintains P (when false m)
  unfolding when
  keep_skip m = record { holds = λ d h. h }

  pub keep_unless : (b : Bool) (c : Code) → Maintains P (unless {W = W} {S = S} b c)
  unfolding unless
  keep_unless true c = record { holds = λ d h. h }
  keep_unless false c = record { holds = λ d h. h }

  pub keep_needs : (b : Bool) → Maintains P (needs {W = W} {S = S} b)
  unfolding needs
  keep_needs true = record { holds = λ d h. h }
  keep_needs false = record { holds = λ d h. h }

  pub keep_attempt : {A : Type 0} {m : M W S A} → Maintains P m → Maintains P (attempt m)
  unfolding attempt
  keep_attempt {m = m} hm = record { holds = λ d h. outcome_keeps P (m d) (hm.holds d h) }

  cleaned_keeps :
      {A : Type 0} (k : Do W S) (x : Reply A × Device W S)
      → P x.1
      → Maintains P k
      → P (cleaned k x).1
  cleaned_keeps k (ok a, d) h hk = h
  cleaned_keeps k (err c, d) h hk = hk.holds d h
  cleaned_keeps k (crash, d) h hk = h

  pub keep_on_failure :
      {A : Type 0} {m : M W S A} {k : Do W S}
      → Maintains P m
      → Maintains P k
      → Maintains P (on_failure m k)
  unfolding on_failure
  keep_on_failure {m = m} {k = k} hm hk = record {
    holds = λ d h. cleaned_keeps k (m d) (hm.holds d h) hk;
  }

  module _ (p : Platform W) where
    -- One call that keeps the property
    pub keep_call_one :
        (c : Call)
        → ((w : W) (d : Device W S) → P d → P (record d { world = w; calls = c ∷ d.calls }))
        → Maintains P (call p c)
    unfolding call
    keep_call_one c moves = record { holds = λ d h. moves (p c d.world).1 d h }

    pub keep_try_one :
        (c : Call)
        → ((w : W) (d : Device W S) → P d → P (record d { world = w; calls = c ∷ d.calls }))
        → Maintains P (try p c)
    unfolding try
    keep_try_one c moves =
        keep_bind {f = accept} (keep_call_one c moves) (λ a. record { holds = accept_keeps P a })

    module _
        (moves : (c : Call) (w : W) (d : Device W S)
          → P d
          → P (record d { world = w; calls = c ∷ d.calls })) where
      pub keep_call : (c : Call) → Maintains P (call p c)
      keep_call c = keep_call_one c (moves c)

      pub keep_try : (c : Call) → Maintains P (try p c)
      keep_try c = keep_try_one c (moves c)
