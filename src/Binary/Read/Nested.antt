-- ===== src/Binary/Read/Nested.antt =====
-- A table that is read from a scope inside another.
use allsorts.Base.{ℕ, ◌≡◌, arith, drop, All, All-drop, length-drop, sym, subst}
use allsorts.Binary.Scope.{ReadScope, offset, offset_lem}
use allsorts.Binary.Read.{ReadCtxt, Reader, IsByte, IsValid, new_ctxt, scope_read, lift, rest_scope}
use allsorts.Binary.Read.Safety.{Follows, Follows-refl, IsSafe}
use allsorts.Error.{Outcome, ok, err, panic, undefined, ParseError, Ends}

-- A scope whose bytes can be read.
abbrev pub IsScope : ReadScope → Type 0
IsScope s = IsValid (new_ctxt s)

drop-IsValid : (s t : ReadScope) (o : ℕ) → IsScope s → t.bytes ≡ drop o s.bytes → IsScope t
drop-IsValid s t o v e = record {
  bounded = omega arith;
  fits = rw e (omega (arith, length-drop o s.bytes, v.fits));
  octets = subst (All IsByte) (sym e) (All-drop IsByte o s.bytes v.octets);
}

pub offset-IsScope : (s : ReadScope) (o : ℕ) → IsScope s → IsScope (offset s o)
offset-IsScope s o v = drop-IsValid s (offset s o) o v (offset_lem s o)

pub rest_scope-IsScope : (c : ReadCtxt) → IsValid c → IsScope (rest_scope c)
rest_scope-IsScope c v =
    offset-IsScope c.scope c.offset
      (record { bounded = omega arith; fits = v.fits; octets = v.octets })

module _ {A : Type 0} (c : ReadCtxt) (v : IsValid c) where
  abbrev lift_result : Outcome ParseError (A × ReadCtxt) → Outcome ParseError A
  lift_result o = elim o [
    | ok (a, d) ↦ ok a
    | err e ↦ err e
    | panic ↦ panic
    | undefined ↦ undefined
  ]

  lifted :
      (d : ReadCtxt) (o : Outcome ParseError (A × ReadCtxt))
      → Ends (λ r. Follows d r.1) o
      → Ends (λ r. Follows c r.1) (lift (lift_result o) c)
  lifted d (ok (a, e)) h = Follows-refl c v
  lifted d (err e) h = tt
  lifted d panic h = h
  lifted d undefined h = h

-- A read from the start of a scope leaves the context where it is.
pub IsSafe-scope_read :
    {A : Type 0} (m : Reader A) (s : ReadScope)
    → IsSafe m
    → IsScope s
    → IsSafe (lift (scope_read m s))
IsSafe-scope_read m s h w c v = lifted c v (new_ctxt s) (m (new_ctxt s)) (h (new_ctxt s) w)
