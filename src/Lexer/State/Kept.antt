-- ===== src/Lexer/State/Kept.antt =====
-- Properties of a lexer that its methods keep: from those of `GetChar` and of the plain fields to
-- those of every method.
use u_lang.Prelude.{
  Option, none, some, ℕ, Bool, true, false, ◌==◌, ltb, add32, sub32, ◌≡◌, Bool-cases, inl, inr,
  List, if◌then◌else◌,
}
use mathlib.Core.Path.{subst}
use u_lang.Outcome
use u_lang.Outcome.{Outcome, ok, thrown, no_fuel, Fault, >>=-eq-ok, ok_inj}
use u_lang.Basic.SourceLocation.{SourceRange, SourceLocation}
use u_lang.Basic.Stream.{Utf8}
use u_lang.Basic.DiagnosticIds.{DiagnosticId}
use u_lang.Basic.Diagnostic.{DiagnosticEngine, Argument, diagnose}
use u_lang.Lexer.State.{Lexer, M, advance_range, diag, get_char, next_char, peek_char, cur_char}

-- Where the method returns, what held of the lexer before holds of it then.
pub record Keeps (P : Lexer → Type 0) {A : Type 0} (m : M A) : Type 0 where
  pub keeps : (l : Lexer) (a : A) (l' : Lexer) → m l ≡ ok (a, l') → P l → P l'

module _ {P : Lexer → Type 0} {A : Type 0} where
  pub bind-Keeps :
      {B : Type 0} {m : M A} (k : A × Lexer → Outcome (B × Lexer))
      → Keeps P m
      → ((a : A) → Keeps P (λ l. k (a, l)))
      → Keeps P (λ l. Outcome.◌>>=◌ (m l) k)
  bind-Keeps {m = m} k first rest = record {
    keeps = λ l b l' e p.
        let (v, e2, e1) = >>=-eq-ok (m l) k e in
        (rest v.0).keeps v.1 b l' e2 (first.keeps l v.0 v.1 e1 p);
  }

  pub gets-Keeps : {f : Lexer → A} → Keeps P (λ l. ok (f l, l))
  gets-Keeps {f} = record { keeps = λ l a l' e p. subst (λ (r : A × Lexer). P r.1) (ok_inj e) p }

  -- Here the rest goes by what was read off the lexer before the call.
  pub bind_from-Keeps :
      {B : Type 0} {m : M A} (k : Lexer → A × Lexer → Outcome (B × Lexer))
      → Keeps P m
      → ((l0 : Lexer) (a : A) → Keeps P (λ l. k l0 (a, l)))
      → Keeps P (λ l. Outcome.◌>>=◌ (m l) (k l))
  bind_from-Keeps {m = m} k first rest = record {
    keeps = λ l b l' e p.
        let (v, e2, e1) = >>=-eq-ok (m l) (k l) e in
        (rest l v.0).keeps v.1 b l' e2 (first.keeps l v.0 v.1 e1 p);
  }

  pub lift-Keeps : (o : Outcome A) → Keeps P (λ l. Outcome.◌>>=◌ o (λ a. ok (a, l)))
  lift-Keeps o = record {
    keeps = λ l a l' e p.
        let (v, e2, e1) = >>=-eq-ok o (λ a. ok (a, l)) e in
        subst (λ (r : A × Lexer). P r.1) (ok_inj e2) p;
  }

  pub thrown-Keeps : {f : Fault} → Keeps P {A = A} (λ l. thrown f)
  thrown-Keeps = record { keeps = λ l a l' e p. absurd (cc e) }

  pub no_fuel-Keeps : Keeps P {A = A} (λ l. no_fuel)
  no_fuel-Keeps = record { keeps = λ l a l' e p. absurd (cc e) }

  pub if-Keeps : (b : Bool) {m n : M A} → Keeps P m → Keeps P n → Keeps P (if b then m else n)
  if-Keeps true k j = k
  if-Keeps false k j = j

  pub option-Keeps :
      {X : Type 0} (o : Option X) (m : M A) (k : X → M A)
      → Keeps P m
      → ((x : X) → Keeps P (k x))
      → Keeps P (elim o [ none ↦ m | some x ↦ k x ])
  option-Keeps none m k h j = h
  option-Keeps (some x) m k h j = j x

  -- Here the test, and the branches, go by what is read off the lexer.
  pub if_from-Keeps :
      (b : Lexer → Bool) (m n : Lexer → M A)
      → Keeps P (λ l. m l l)
      → Keeps P (λ l. n l l)
      → Keeps P (λ l. (if b l then m l else n l) l)
  if_from-Keeps b m n k j = record { keeps = λ l a l' e p. go l a l' (b l) e p }
    where
      go :
          (l : Lexer) (a : A) (l' : Lexer) (c : Bool)
          → (if c then m l else n l) l ≡ ok (a, l')
          → P l
          → P l'
      go l a l' true e p = k.keeps l a l' e p
      go l a l' false e p = j.keeps l a l' e p

  pub if_at-Keeps :
      (b : Bool) {m n : M A} → Keeps P m → Keeps P n → Keeps P (λ l. if b then m l else n l)
  if_at-Keeps true k j = k
  if_at-Keeps false k j = j

-- What `GetChar` keeps, and every change of the fields that it only reads through the source.
pub record Stable (utf8 : Utf8) (P : Lexer → Type 0) : Type 0 where
  pub get_char : Keeps P (get_char utf8)
  pub fields :
      (l : Lexer) (r : SourceRange) (c n v : ℕ) (d : DiagnosticEngine)
      → P l
      → P (record l { source_range = r; cur_char = c; next_char = n; cur_valid = v; diags = d })

module _ (utf8 : Utf8) {P : Lexer → Type 0} (s : Stable utf8 P) where
  pub next_char-Keeps : Keeps P (next_char utf8)
  unfolding next_char
  next_char-Keeps = record {
    keeps = λ l a l2 e p.
        let l' = record l { source_range = advance_range l.source_range } in
        let moved = s.fields l l'.source_range l.cur_char l.next_char l.cur_valid l.diags p in
        elim (Bool-cases (ltb 1 l.cur_valid)) [
          | inl two ↦
              subst (λ (r : ℕ × Lexer). P r.1) (ok_inj (rw two at e))
                (s.fields l l'.source_range l.next_char l.next_char (sub32 l.cur_valid 1) l.diags p)
          | inr one ↦
              let (v, e2, e1) =
                >>=-eq-ok (get_char utf8 l') (λ r. ok (r.0, record r.1 { cur_char = r.0 }))
                  (rw one at e) in
              let got = s.get_char.keeps l' v.0 v.1 e1 moved in
              subst (λ (r : ℕ × Lexer). P r.1) (ok_inj e2)
                (s.fields v.1 v.1.source_range v.0 v.1.next_char v.1.cur_valid v.1.diags got)
        ];
  }

  pub peek_char-Keeps : Keeps P (peek_char utf8)
  unfolding peek_char
  peek_char-Keeps = record {
    keeps = λ l a l2 e p.
        let l' = record l { cur_valid = add32 l.cur_valid 1 } in
        let moved = s.fields l l.source_range l.cur_char l.next_char l'.cur_valid l.diags p in
        elim (Bool-cases (ltb 1 l.cur_valid)) [
          | inl two ↦ subst (λ (r : ℕ × Lexer). P r.1) (ok_inj (rw two at e)) p
          | inr one ↦
              let (v, e2, e1) =
                >>=-eq-ok (get_char utf8 l') (λ r. ok (r.0, record r.1 { next_char = r.0 }))
                  (rw one at e) in
              let got = s.get_char.keeps l' v.0 v.1 e1 moved in
              subst (λ (r : ℕ × Lexer). P r.1) (ok_inj e2)
                (s.fields v.1 v.1.source_range v.1.cur_char v.0 v.1.cur_valid v.1.diags got)
        ];
  }

  pub cur_char-Keeps : Keeps P (cur_char utf8)
  unfolding cur_char
  cur_char-Keeps = record {
    keeps = λ l a l2 e p. elim (Bool-cases (l.cur_valid == 0)) [
      | inl fresh ↦
          let (v, e2, e1) =
            >>=-eq-ok (next_char utf8 l)
              (λ r. ok (r.1.cur_char, record r.1 { cur_valid = add32 r.1.cur_valid 1 }))
              (rw fresh at e) in
          let got = next_char-Keeps.keeps l v.0 v.1 e1 p in
          subst (λ (r : ℕ × Lexer). P r.1) (ok_inj e2)
            (s.fields v.1 v.1.source_range v.1.cur_char v.1.next_char (add32 v.1.cur_valid 1)
              v.1.diags got)
      | inr old ↦ subst (λ (r : ℕ × Lexer). P r.1) (ok_inj (rw old at e)) p
    ];
  }

  pub diag-Keeps :
      (loc : SourceLocation) (id : DiagnosticId) (args : List Argument) → Keeps P (diag loc id args)
  unfolding diag
  diag-Keeps loc id args = record {
    keeps = λ l a l2 e p.
        let (d, e2, e1) =
          >>=-eq-ok (diagnose loc id args l.diags) (λ d. ok (tt, record l { diags = d })) e in
        subst (λ (r : Unit × Lexer). P r.1) (ok_inj e2)
          (s.fields l l.source_range l.cur_char l.next_char l.cur_valid d p);
  }
