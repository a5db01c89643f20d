-- ===== src/Lexer/Number/Conversion.antt =====
-- The diagnostics of `ConvertFloat`.
use u_lang.Prelude.{
  ◌≤◌, ◌≡◌, refl, true, false, List, [], ◌∷◌, Bytes, length, arith, some, ◌==◌, Bool-cases, inl,
  inr,
}
use u_lang.Outcome.{ok}
use u_lang.Basic.SourceLocation.{SourceLocation}
use u_lang.Basic.TokenKinds.{real_constant}
use u_lang.Basic.DiagnosticIds.{
  DiagnosticId, DiagnosticInfo, fatal, apreal_overflow, apreal_underflow, apreal_unknown,
  mapping_get, is_idle_id,
}
use u_lang.Basic.Diagnostic.{Argument, std_string}
use u_lang.Basic.Diagnostic.Laws.{Emitted, diagnose-Emitted}
use u_lang.Lexer.Token.{Numerals, float_token, op_ok, op_overflow, op_underflow}
use u_lang.Lexer.State.{Lexer, diag}
use u_lang.Lexer.Number.{convert_float}

-- One fatal diagnostic was emitted at this location, and nothing else was done to the lexer.
pub record Complained (w : SourceLocation) (l l' : Lexer) : Type 0 where
  pub args : List Argument
  pub info : DiagnosticInfo
  pub is_fatal : info.level ≡ fatal
  pub emitted : Emitted w args info l.diags l'.diags
  pub others : l' ≡ record l { diags = l'.diags }

-- Such a diagnostic.
diag-Complained :
    (w : SourceLocation) (id : DiagnosticId) (args : List Argument) (i : DiagnosticInfo) (l : Lexer)
    → mapping_get id ≡ some i
    → i.level ≡ fatal
    → is_idle_id l.diags.cur_diag_id ≡ true
    → length args ≤ 1
    → 1 ≤ length l.diags.diag_arguments
    → (l' : Lexer) × (diag w id args l ≡ ok (tt, l')) × Complained w l l'
unfolding diag
diag-Complained w id args i l held level idle few slots =
    let (e, p, m) = diagnose-Emitted w id args i l.diags idle held (omega arith) (omega arith) in
    (
      record l { diags = e },
      rw p refl,
      record { args = args; info = i; is_fatal = level; emitted = m; others = refl },
    )

module _ {F I : Type 0} (ap' : Numerals F I) where
  -- Where no diagnostic is in flight and there is a slot for an argument: a real number whose
  -- conversion has any status but `opOK`, an inexact one among them, is returned as a token all
  -- the same, with one fatal diagnostic at its location, and nothing else of the lexer changes.
  pub convert_float-Complained :
      (num : Bytes) (w : SourceLocation) (l : Lexer)
      → is_idle_id l.diags.cur_diag_id ≡ true
      → 1 ≤ length l.diags.diag_arguments
      → ((ap'.convert_from_string num).0 == op_ok) ≡ false
      → (l' : Lexer) × (convert_float ap' num w l
          ≡ ok (float_token ap' real_constant w (ap'.convert_from_string num).1, l'))
        × Complained w l l'
  unfolding convert_float mapping_get
  convert_float-Complained num w l idle slots failed =
      let (status, value) = ap'.convert_from_string num in
      elim (Bool-cases ((ap'.convert_from_string num).0 == op_overflow)) [
        | inl over ↦
            let (l', e, c) =
              diag-Complained w apreal_overflow (std_string num ∷ []) _ l refl refl idle
                (omega arith) slots in
            (l', rw over (rw e refl), c)
        | inr n1 ↦ elim (Bool-cases ((ap'.convert_from_string num).0 == op_underflow)) [
          | inl under ↦
              let (l', e, c) =
                diag-Complained w apreal_underflow (std_string num ∷ []) _ l refl refl idle
                  (omega arith) slots in
              (l', rw n1 (rw under (rw e refl)), c)
          | inr n2 ↦
              let (l', e, c) =
                diag-Complained w apreal_unknown [] _ l refl refl idle (omega arith) slots in
              (l', rw n1 (rw n2 (rw failed (rw e refl))), c)
        ]
      ]
