-- ===== src/Binary/Read/Remaining.antt =====
-- What a reader takes from the front of the bytes that remain, and how two readers in sequence
-- compose. `Reads m bs a` is one half of a round trip: `m` turns the bytes `bs` into `a`.
use allsorts.Base.{ℕ, ◌+◌, ◌≤◌, ◌≡◌, sym, subst, ap, ◌∙◌, List, [], ◌++◌, arith}
use allsorts.Base.{length, drop, All, length-append, length-drop, drop-drop, drop-append}
use allsorts.Base.{All-drop, get_elem?-drop, Bool, true, none, some}
use allsorts.Binary.Scope.{get_unchecked}
use allsorts.Binary.Read.{
  ReadCtxt, Reader, IsByte, IsValid, remaining, advance, pure, lift, ◌>>=◌, check_avail,
  peek_unchecked, check, check_version,
}
use allsorts.Error.{ok, undefined}
use mathlib.Core.List.{append-nil, append_assoc}

pub length-remaining :
    (c : ReadCtxt) → IsValid c → length (remaining c) + c.offset ≡ length c.scope.bytes
length-remaining c v = omega (arith, length-drop c.offset c.scope.bytes)

pub remaining-octets : (c : ReadCtxt) → IsValid c → All IsByte (remaining c)
remaining-octets c v = All-drop IsByte c.offset c.scope.bytes v.octets

pub advance-IsValid :
    (c : ReadCtxt) (n : ℕ) → IsValid c → n ≤ length (remaining c) → IsValid (advance c n)
advance-IsValid c n v h = record {
  bounded = omega (arith, length-remaining c v);
  fits = v.fits;
  octets = v.octets;
}

pub remaining-advance : (c : ReadCtxt) (n : ℕ) → remaining (advance c n) ≡ drop n (remaining c)
remaining-advance c n = sym (drop-drop n c.offset c.scope.bytes)

pub advance-advance : (c : ReadCtxt) (m n : ℕ) → advance (advance c m) n ≡ advance c (m + n)
advance-advance c m n =
    let e : c.offset + m + n ≡ c.offset + (m + n) = omega arith in
    ap (λ o. record c { offset = o }) e

-- A step that succeeds hands its value and context on.
pub bind_ok :
    {A B : Type 0} (m : Reader A) (f : A → Reader B) (c c' : ReadCtxt) (a : A)
    → m c ≡ ok (a, c')
    → (m >>= f) c ≡ f a c'
bind_ok m f c c' a h = rw h

pub peek_unchecked_lem :
    (c : ReadCtxt) (r : List ℕ) (i : ℕ)
    → remaining c ≡ r
    → peek_unchecked i c ≡ lift (get_unchecked r i) c
unfolding peek_unchecked
peek_unchecked_lem c r i e = rw (← e) (
    ap (λ o. lift (elim o [ none ↦ undefined | some b ↦ ok b ]) c)
      (sym (get_elem?-drop c.offset i c.scope.bytes)))

pub check_avail_lem :
    (c : ReadCtxt) (n : ℕ) → IsValid c → n ≤ length (remaining c) → check_avail n c ≡ ok (tt, c)
unfolding check_avail
check_avail_lem c n v h = ground (arith, length-remaining c v)

-- `m` reads exactly the bytes `bs`, whatever follows them, and answers `a`.
abbrev pub Reads : {A : Type 0} → Reader A → List ℕ → A → Type 0
Reads m bs a =
    (c : ReadCtxt) (rest : List ℕ)
    → IsValid c
    → remaining c ≡ bs ++ rest
    → m c ≡ ok (a, advance c (length bs))

pub front_fits :
    (c : ReadCtxt) (bs rest : List ℕ) → remaining c ≡ bs ++ rest → length bs ≤ length (remaining c)
front_fits c bs rest e = rw e (omega (arith, length-append bs rest))

pub remaining_after :
    (c : ReadCtxt) (bs rest : List ℕ)
    → remaining c ≡ bs ++ rest
    → remaining (advance c (length bs)) ≡ rest
remaining_after c bs rest e = remaining-advance c (length bs) ∙ rw e (drop-append bs rest)

pub Reads-pure : {A : Type 0} (a : A) → Reads (pure a) [] a
Reads-pure a c rest v e =
    let k : c.offset ≡ c.offset + 0 = omega arith in ap (λ o. ok (a, record c { offset = o })) k

pub Reads->>= :
    {A B : Type 0} (m : Reader A) (f : A → Reader B) (bs cs : List ℕ) (a : A) (b : B)
    → Reads m bs a
    → Reads (f a) cs b
    → Reads (m >>= f) (bs ++ cs) b
Reads->>= m f bs cs a b hm hf c rest v e =
    let e' : remaining c ≡ bs ++ (cs ++ rest) = e ∙ append_assoc bs cs rest in
    let v' : IsValid (advance c (length bs)) =
      advance-IsValid c (length bs) v (front_fits c bs (cs ++ rest) e') in
    rw (hm c (cs ++ rest) v e') (
      hf (advance c (length bs)) rest v' (remaining_after c bs (cs ++ rest) e')
      ∙ ap (λ d. ok (b, d))
          (advance-advance c (length bs) (length cs) ∙ ap (advance c) (sym (length-append bs cs))))

-- A last step that only computes.
pub Reads-map :
    {A B : Type 0} (m : Reader A) (f : A → B) (bs : List ℕ) (a : A)
    → Reads m bs a
    → Reads (m >>= λ x. pure (f x)) bs (f a)
Reads-map m f bs a hm c rest v e = rw (hm c rest v e)

-- What reads nothing may follow.
pub Reads-then :
    {A B : Type 0} (m : Reader A) (f : A → Reader B) (bs : List ℕ) (a : A) (b : B)
    → Reads m bs a
    → Reads (f a) [] b
    → Reads (m >>= f) bs b
Reads-then m f bs a b hm hf =
    subst (λ cs. Reads (m >>= f) cs b) (append-nil bs) (Reads->>= m f bs [] a b hm hf)

pub Reads-check : (b : Bool) → b ≡ true → Reads (check b) [] tt
unfolding check
Reads-check b h c rest v e = rw h (Reads-pure tt c rest v e)

pub Reads-check_version : (b : Bool) → b ≡ true → Reads (check_version b) [] tt
unfolding check_version
Reads-check_version b h c rest v e = rw h (Reads-pure tt c rest v e)
