-- ===== src/Driver/Hoare.antt =====
-- Conditions before and after a method: one on its result, one for an error and one for a crash.
-- There is one rule for each way of composing methods in Host.
use r_compatible_driver_v.Base.{Bool, true, false, ◌∷◌, ◌==◌, ◌≡◌, inl, inr, refl, Bool-cases}
use r_compatible_driver_v.Driver.Host.{
  Call, Answer, Platform, Code, Reply, ok, err, crash, Device, M, Do, ◌>>=◌, ◌>>◌, pure, get,
  modify, unless, when, needs, choose, outcome, attempt, cleaned, on_failure, call, accept, try,
  continue,
}
use r_compatible_driver_v.Driver.Maintain.{Maintains}

-- What an outcome is to satisfy
abbrev pub Outcome :
    {W S A : Type 0}
    → (E C : Device W S → Type 0) → (A → Device W S → Type 0)
    → Reply A × Device W S
    → Type 0
Outcome E C Q (ok a, d) = Q a d
Outcome E C Q (err c, d) = E d
Outcome E C Q (crash, d) = C d

pub record Triple {W S A : Type 0} (E C P : Device W S → Type 0) (m : M W S A)
    (Q : A → Device W S → Type 0) : Type 0 where
  pub gives : (d : Device W S) → P d → Outcome E C Q (m d)

-- A condition that a method keeps holds on every outcome.
pub Outcome-fst :
    {W S A : Type 0} (P : Device W S → Type 0) (x : Reply A × Device W S)
    → Outcome P P (λ _. P) x
    → P x.1
Outcome-fst P (ok a, d) h = h
Outcome-fst P (err c, d) h = h
Outcome-fst P (crash, d) h = h

module _ {W S : Type 0} (E C : Device W S → Type 0) where
  accept_outcome :
      (Q : Device W S → Type 0) (a : Answer) (d : Device W S)
      → Q d
      → ((d : Device W S) → Q d → E d)
      → Outcome E C (λ _. Q) (accept a d)
  unfolding accept
  accept_outcome Q a d h k = elim (Bool-cases (a.status == 0)) [
    | inl e ↦ rw e h
    | inr e ↦ rw e (k d h)
  ]

  cleaned_outcome :
      {A : Type 0} {E' : Device W S → Type 0} (Q : A → Device W S → Type 0) (k : Do W S)
      (x : Reply A × Device W S)
      → Outcome E' C Q x
      → ((d : Device W S) → E' d → E (k d).1)
      → Outcome E C Q (cleaned k x)
  cleaned_outcome Q k (ok a, d) h hk = h
  cleaned_outcome Q k (err c, d) h hk = hk d h
  cleaned_outcome Q k (crash, d) h hk = h

module _ {W S : Type 0} {E C : Device W S → Type 0} where
  continue_outcome :
      {A B : Type 0} (Q : A → Device W S → Type 0) (R : B → Device W S → Type 0) (f : A → M W S B)
      (x : Reply A × Device W S)
      → Outcome E C Q x
      → ((a : A) → Triple E C (Q a) (f a) R)
      → Outcome E C R (continue f x)
  continue_outcome Q R f (ok a, d) h k = (k a).gives d h
  continue_outcome Q R f (err c, d) h k = h
  continue_outcome Q R f (crash, d) h k = h

  pub hoare_bind :
      {A B : Type 0} {P : Device W S → Type 0} {Q : A → Device W S → Type 0}
      {R : B → Device W S → Type 0} {m : M W S A} {f : A → M W S B}
      → Triple E C P m Q
      → ((a : A) → Triple E C (Q a) (f a) R)
      → Triple E C P (m >>= f) R
  unfolding ◌>>=◌
  hoare_bind {Q = Q} {R = R} {m = m} {f = f} hm hf = record {
    gives = λ d h. continue_outcome Q R f (m d) (hm.gives d h) hf;
  }

  infixr 5 ◌⨾◌
  pub ◌⨾◌ :
      {A B : Type 0} {P Q : Device W S → Type 0} {R : B → Device W S → Type 0} {m : M W S A}
      {k : M W S B}
      → Triple E C P m (λ _. Q)
      → Triple E C Q k R
      → Triple E C P (m >> k) R
  hm ⨾ hk = hoare_bind hm (λ _. hk)

  pub hoare_get :
      {P : Device W S → Type 0} {B : Type 0} {R : B → Device W S → Type 0}
      {f : Device W S → M W S B}
      → ((d : Device W S) → P d → Triple E C (λ e. e ≡ d) (f d) R)
      → Triple E C P (get >>= f) R
  unfolding ◌>>=◌
  hoare_get k = record { gives = λ d h. (k d h).gives d refl }

  pub hoare_pure :
      {A : Type 0} {P : Device W S → Type 0} {Q : A → Device W S → Type 0} (a : A)
      → ((d : Device W S) → P d → Q a d)
      → Triple E C P (pure a) Q
  unfolding pure
  hoare_pure a k = record { gives = k }

  pub hoare_modify :
      {P Q : Device W S → Type 0} (f : Device W S → Device W S)
      → ((d : Device W S) → P d → Q (f d))
      → Triple E C P (modify f) (λ _. Q)
  unfolding modify
  hoare_modify f k = record { gives = k }

  pub hoare_weaken :
      {A : Type 0} {P : Device W S → Type 0} (P' : Device W S → Type 0)
      {Q : A → Device W S → Type 0} {m : M W S A}
      → ((d : Device W S) → P d → P' d)
      → Triple E C P' m Q
      → Triple E C P m Q
  hoare_weaken P' k hm = record { gives = λ d h. hm.gives d (k d h) }

  -- The same with the condition itself kept at hand
  pub hoare_get_keep :
      {P : Device W S → Type 0} {B : Type 0} {R : B → Device W S → Type 0}
      {f : Device W S → M W S B}
      → ((d : Device W S) → P d → Triple E C P (f d) R)
      → Triple E C P (get >>= f) R
  hoare_get_keep {P = P} k = hoare_get {P = P} λ d h. hoare_weaken P (λ e q. rw q h) (k d h)

  pub hoare_when :
      {P Q : Device W S → Type 0} (b : Bool) {m : Do W S}
      → ((d : Device W S) → P d → b ≡ false → Q d)
      → (b ≡ true → Triple E C P m (λ _. Q))
      → Triple E C P (when b m) (λ _. Q)
  unfolding when
  hoare_when true skip hm = record { gives = λ d h. (hm refl).gives d h }
  hoare_when false skip hm = record { gives = λ d h. skip d h refl }

  pub hoare_needs :
      {P : Device W S → Type 0} (b : Bool) → b ≡ true → Triple E C P (needs b) (λ _. P)
  unfolding needs
  hoare_needs true q = record { gives = λ d h. h }
  hoare_needs false q = cc

  pub hoare_choose :
      {A : Type 0} {P : Device W S → Type 0} {Q : A → Device W S → Type 0} (b : Bool)
      {m n : M W S A}
      → Triple E C P m Q
      → Triple E C P n Q
      → Triple E C P (choose b m n) Q
  unfolding choose
  hoare_choose true hm hn = record { gives = λ d h. hm.gives d h }
  hoare_choose false hm hn = record { gives = λ d h. hn.gives d h }

  pub hoare_unless :
      {P Q : Device W S → Type 0} (b : Bool) (c : Code)
      → ((d : Device W S) → P d → b ≡ false → E d)
      → ((d : Device W S) → P d → b ≡ true → Q d)
      → Triple E C P (unless b c) (λ _. Q)
  unfolding unless
  hoare_unless true c refuse k = record { gives = λ d h. k d h refl }
  hoare_unless false c refuse k = record { gives = λ d h. refuse d h refl }

  -- A method that keeps a condition which is enough for an error and for a crash
  kept_outcome :
      {A : Type 0} (P : Device W S → Type 0) (x : Reply A × Device W S)
      → P x.1
      → ((d : Device W S) → P d → E d)
      → ((d : Device W S) → P d → C d)
      → Outcome E C (λ _. P) x
  kept_outcome P (ok a, d) h e c = h
  kept_outcome P (err x, d) h e c = e d h
  kept_outcome P (crash, d) h e c = c d h

  pub hoare_kept :
      {A : Type 0} {P : Device W S → Type 0} {m : M W S A}
      → Maintains P m
      → ((d : Device W S) → P d → E d)
      → ((d : Device W S) → P d → C d)
      → Triple E C P m (λ _. P)
  hoare_kept {P = P} {m = m} k e c = record {
    gives = λ d h. kept_outcome P (m d) (k.holds d h) e c;
  }

  module _ (p : Platform W) {P Q : Device W S → Type 0}
      (moves : (c : Call) (w : W) (d : Device W S)
        → P d
        → Q (record d { world = w; calls = c ∷ d.calls })) where
    pub hoare_call : (c : Call) → Triple E C P (call p c) (λ _. Q)
    unfolding call
    hoare_call c = record { gives = λ d h. moves c (p c d.world).1 d h }

    pub hoare_try : ((d : Device W S) → Q d → E d) → (c : Call) → Triple E C P (try p c) (λ _. Q)
    unfolding try
    hoare_try k c =
        hoare_bind {Q = λ _. Q} {f = accept} (hoare_call c)
          (λ a. record { gives = λ d h. accept_outcome E C Q a d h k })

  pub hoare_on_failure :
      {A : Type 0} {E' P : Device W S → Type 0} {Q : A → Device W S → Type 0} {m : M W S A}
      (k : Do W S)
      → Triple E' C P m Q
      → ((d : Device W S) → E' d → E (k d).1)
      → Triple E C P (on_failure m k) Q
  unfolding on_failure
  hoare_on_failure {E' = E'} {Q = Q} {m = m} k hm hk = record {
    gives = λ d h. cleaned_outcome E C {E' = E'} Q k (m d) (hm.gives d h) hk;
  }

-- Weaker conditions after an outcome
relaxed :
    {W S A : Type 0} {E E' C C' : Device W S → Type 0} {Q Q' : A → Device W S → Type 0}
    (x : Reply A × Device W S)
    → Outcome E C Q x
    → ((d : Device W S) → E d → E' d)
    → ((d : Device W S) → C d → C' d)
    → ((a : A) (d : Device W S) → Q a d → Q' a d)
    → Outcome E' C' Q' x
relaxed (ok a, d) h e c q = q a d h
relaxed (err x, d) h e c q = e d h
relaxed (crash, d) h e c q = c d h

attempted :
    {W S A : Type 0} {E : Device W S → Type 0} (E' C : Device W S → Type 0)
    {Q : A → Device W S → Type 0} (R : Device W S → Type 0) (x : Reply A × Device W S)
    → Outcome E C Q x
    → ((d : Device W S) → E d → R d)
    → ((a : A) (d : Device W S) → Q a d → R d)
    → Outcome E' C (λ _. R) (outcome x)
attempted E' C R (ok a, d) h e q = q a d h
attempted E' C R (err x, d) h e q = e d h
attempted E' C R (crash, d) h e q = h

module _ {W S A : Type 0} {E E' C : Device W S → Type 0} {P : Device W S → Type 0}
    {Q : A → Device W S → Type 0} {m : M W S A} where
  pub hoare_relax :
      {C' : Device W S → Type 0} {Q' : A → Device W S → Type 0}
      → ((d : Device W S) → E d → E' d)
      → ((d : Device W S) → C d → C' d)
      → ((a : A) (d : Device W S) → Q a d → Q' a d)
      → Triple E C P m Q
      → Triple E' C' P m Q'
  hoare_relax {C' = C'} {Q' = Q'} e c q hm = record {
    gives = λ d h.
        relaxed {E = E} {E' = E'} {C = C} {C' = C'} {Q = Q} {Q' = Q'} (m d) (hm.gives d h) e c q;
  }

  pub hoare_attempt :
      {R : Device W S → Type 0}
      → ((d : Device W S) → E d → R d)
      → ((a : A) (d : Device W S) → Q a d → R d)
      → Triple E C P m Q
      → Triple E' C P (attempt m) (λ _. R)
  unfolding attempt
  hoare_attempt {R = R} e q hm = record {
    gives = λ d h. attempted {E = E} E' C {Q = Q} R (m d) (hm.gives d h) e q;
  }
