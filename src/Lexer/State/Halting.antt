-- ===== src/Lexer/State/Halting.antt =====
-- Methods that come to an end: what the characters ahead of a lexer bound.
use u_lang.Prelude.{
  Option, none, some, ℕ, Bool, true, false, ◌≤◌, ◌≡◌, ◌≢◌, refl, List, [], ◌∷◌, length, arith,
  if◌then◌else◌, inl, inr,
}
use mathlib.Core.Path.{subst}
use u_lang.Outcome
use u_lang.Outcome.{Outcome, ok, thrown, no_fuel, Fault, >>=-eq-ok, >>=-eq-no_fuel, ok_inj}
use u_lang.Basic.Stream.{Utf8}
use u_lang.Basic.SourceLocation.{SourceLocation}
use u_lang.Basic.DiagnosticIds.{DiagnosticId}
use u_lang.Basic.Diagnostic.{Argument, diagnose}
use u_lang.Basic.Diagnostic.Halting.{diagnose-ne-no_fuel}
use u_lang.Lexer.State.{Lexer, M, diag, next_char, peek_char, cur_char}
use u_lang.Lexer.State.Ahead.{Ready, tail, next_char-Advanced, peek_char-Peeked, cur_char-Ready}

module _ (utf8 : Utf8) where
  -- The outcome is there, and a lexer that it leaves has at most `n` characters behind the current
  -- one.
  pub record Ends (n : ℕ) {A : Type 0} (o : Outcome (A × Lexer)) : Type 0 where
    pub ends : o ≢ no_fuel
    pub leaves :
        (a : A) (l : Lexer) → o ≡ ok (a, l) → (cs : List ℕ) × Ready utf8 l cs × (length cs ≤ n)

  -- So does every outcome of the method, at a lexer with at most `n` characters behind the current
  -- one.
  pub record Halts (n : ℕ) {A : Type 0} (m : M A) : Type 0 where
    pub halts : (l : Lexer) (cs : List ℕ) → Ready utf8 l cs → length cs ≤ n → Ends n (m l)

  module _ {n : ℕ} {A : Type 0} where
    pub ok-Ends :
        {a : A} {l : Lexer} (cs : List ℕ) → Ready utf8 l cs → length cs ≤ n → Ends n (ok (a, l))
    ok-Ends cs r h = record {
      ends = λ e. cc e;
      leaves = λ b l' e. (cs, subst (λ (x : A × Lexer). Ready utf8 x.1 cs) (ok_inj e) r, h);
    }

    pub bind-Ends :
        {B : Type 0} {o : Outcome (A × Lexer)} (k : A × Lexer → Outcome (B × Lexer))
        → Ends n o
        → ((a : A) (l : Lexer) (cs : List ℕ) → Ready utf8 l cs → length cs ≤ n → Ends n (k (a, l)))
        → Ends n (Outcome.◌>>=◌ o k)
    bind-Ends {o = o} k first rest = record {
      ends = λ e. elim (>>=-eq-no_fuel o k e) [
        | inl at_once ↦ first.ends at_once
        | inr later ↦
            let (v, e2, e1) = later in
            let (cs, r, h) = first.leaves v.0 v.1 e1 in (rest v.0 v.1 cs r h).ends e2
      ];
      leaves = λ b l' e.
          let (v, e2, e1) = >>=-eq-ok o k e in
          let (cs, r, h) = first.leaves v.0 v.1 e1 in (rest v.0 v.1 cs r h).leaves b l' e2;
    }

    -- A call that does not touch the lexer.
    pub bind_plain :
        {X : Type 0} (o : Outcome X) (k : X → Outcome (A × Lexer))
        → o ≢ no_fuel
        → ((x : X) → o ≡ ok x → Ends n (k x))
        → Ends n (Outcome.◌>>=◌ o k)
    bind_plain (ok x) k h rest = rest x refl
    bind_plain (thrown f) k h rest = record { ends = λ e. cc e; leaves = λ a l' e. absurd (cc e) }
    bind_plain no_fuel k h rest = absurd (h refl)

    pub lift_bind-Ends :
        {X : Type 0} (o : Outcome X) (l : Lexer) (k : X × Lexer → Outcome (A × Lexer))
        → o ≢ no_fuel
        → ((x : X) → o ≡ ok x → Ends n (k (x, l)))
        → Ends n (Outcome.◌>>=◌ (Outcome.◌>>=◌ o (λ a. ok (a, l))) k)
    lift_bind-Ends (ok x) l k h rest = rest x refl
    lift_bind-Ends (thrown f) l k h rest = record {
      ends = λ e. cc e;
      leaves = λ a l' e. absurd (cc e);
    }
    lift_bind-Ends no_fuel l k h rest = absurd (h refl)

    pub bind-Halts :
        {B : Type 0} {m : M A} (k : A × Lexer → Outcome (B × Lexer))
        → Halts n m
        → ((a : A) → Halts n (λ l. k (a, l)))
        → Halts n (λ l. Outcome.◌>>=◌ (m l) k)
    bind-Halts {m = m} k first rest = record {
      halts = λ l cs r h. bind-Ends k (first.halts l cs r h) λ a l'. (rest a).halts l';
    }

    -- Here the rest goes by what was read off the lexer before the call.
    pub bind_from-Halts :
        {B : Type 0} {m : M A} (k : Lexer → A × Lexer → Outcome (B × Lexer))
        → Halts n m
        → ((l0 : Lexer) (a : A) → Halts n (λ l. k l0 (a, l)))
        → Halts n (λ l. Outcome.◌>>=◌ (m l) (k l))
    bind_from-Halts {m = m} k first rest = record {
      halts = λ l cs r h. bind-Ends (k l) (first.halts l cs r h) λ a l'. (rest l a).halts l';
    }

    pub gets-Halts : {f : Lexer → A} → Halts n (λ l. ok (f l, l))
    gets-Halts = record { halts = λ l cs r h. ok-Ends cs r h }

    pub thrown-Halts : {f : Fault} → Halts n {A = A} (λ l. thrown f)
    thrown-Halts = record {
      halts = λ l cs r h. record { ends = λ e. cc e; leaves = λ a l' e. absurd (cc e) };
    }

    pub lift-Halts : (o : Outcome A) → o ≢ no_fuel → Halts n (λ l. Outcome.◌>>=◌ o (λ a. ok (a, l)))
    lift-Halts (ok a) h = gets-Halts
    lift-Halts (thrown f) h = thrown-Halts
    lift-Halts no_fuel h = absurd (h refl)

    pub if-Halts : (b : Bool) {m k : M A} → Halts n m → Halts n k → Halts n (if b then m else k)
    if-Halts true h j = h
    if-Halts false h j = j

    pub option-Halts :
        {X : Type 0} (o : Option X) (m : M A) (k : X → M A)
        → Halts n m
        → ((x : X) → o ≡ some x → Halts n (k x))
        → Halts n (elim o [ none ↦ m | some x ↦ k x ])
    option-Halts none m k h j = h
    option-Halts (some x) m k h j = j x refl

    pub Ends-low : {k : ℕ} {o : Outcome (A × Lexer)} → k ≤ n → Ends k o → Ends n o
    Ends-low h e = record {
      ends = e.ends;
      leaves = λ a l x. let (cs, r, j) = e.leaves a l x in (cs, r, omega arith);
    }

  pub shorter : {n : ℕ} (cs : List ℕ) → length cs ≤ n → length (tail cs) ≤ n
  shorter [] h = h
  shorter (c ∷ cs) h = omega arith

  module _ {n : ℕ} where
    pub next_char-Halts : Halts n (next_char utf8)
    next_char-Halts = record {
      halts = λ l cs r h.
          let (l', a) = next_char-Advanced utf8 l cs r in
          rw a.result (ok-Ends (tail cs) a.ready (shorter cs h));
    }

    pub peek_char-Halts : Halts n (peek_char utf8)
    peek_char-Halts = record {
      halts = λ l cs r h.
          let (l', p) = peek_char-Peeked utf8 l cs r in rw p.result (ok-Ends cs p.ready h);
    }

    pub cur_char-Halts : Halts n (cur_char utf8)
    cur_char-Halts = record { halts = λ l cs r h. rw (cur_char-Ready utf8 l cs r) (ok-Ends cs r h) }

    pub diag-Halts :
        (loc : SourceLocation) (id : DiagnosticId) (args : List Argument)
        → Halts n (diag loc id args)
    unfolding diag
    diag-Halts loc id args = record {
      halts = λ l cs r h.
          bind_plain (diagnose loc id args l.diags) _ (diagnose-ne-no_fuel loc id args l.diags)
            λ d same. ok-Ends cs (record { view = r.view }) h;
    }
