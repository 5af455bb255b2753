-- ===== src/Woff2/EndPoints.antt =====
-- src/woff2.rs, `compute_end_pts_of_contours`: the last point of each contour, from the number of
-- points of each. The sums are of 16 bits and wrap.
use allsorts.Base.{ℕ, zero, suc, ◌+◌, ◌-◌, ◌%◌, ◌^◌, ◌<◌, ◌≡◌, ap, subst, ◌∙◌, arith}
use allsorts.Base.{List, [], ◌∷◌, ◌++◌, length, All}
use allsorts.Base.Int.{ℤ, pos, pos_part}
use allsorts.Binary.Read.{Reader, ReadCtxt, IsValid, remaining, advance, pure, ◌>>=◌}
use allsorts.Binary.Read.Remaining.{Reads, Reads->>=, Reads-map, Reads-pure}
use allsorts.Error.{ok}
use allsorts.Woff2.Packed.{read_packed_u16, packed_bytes, read_packed_u16-packed_bytes}

-- The rounds that are left, and the points so far.
unfoldable pub contours_loop : ℕ → ℕ → Reader (List ℕ × ℕ)
contours_loop zero n_points = pure ([], n_points)
contours_loop (suc left) n_points = do
  n_contours ← read_packed_u16
  let n_points' = (n_points + n_contours) % 2 ^ 16
  r ← contours_loop left n_points'
  pure (((2 ^ 16 + n_points' - 1) % 2 ^ 16) ∷ r.0, r.1)

-- A negative number of contours gives an empty range.
unfoldable pub compute_end_pts_of_contours : ℤ → Reader (List ℕ × ℕ)
unfolding contours_loop
compute_end_pts_of_contours number_of_contours = contours_loop (pos_part number_of_contours) 0

abbrev pub counts_bytes : List ℕ → List ℕ
counts_bytes [] = []
counts_bytes (n ∷ ns) = packed_bytes n ++ counts_bytes ns

abbrev pub total : List ℕ → ℕ
total [] = 0
total (n ∷ ns) = n + total ns

-- The last point of each contour: one less than the number of points up to its end.
abbrev pub last_points : ℕ → List ℕ → List ℕ
last_points before [] = []
last_points before (n ∷ ns) = (before + n - 1) ∷ last_points (before + n) ns

packed_Reads : (x : ℕ) → x < 2 ^ 16 → Reads read_packed_u16 (packed_bytes x) x
packed_Reads x h c rest v e = read_packed_u16-packed_bytes x c rest h v e

loop_Reads :
    (ns : List ℕ) (before : ℕ)
    → All (λ n. 0 < n) ns
    → before + total ns < 2 ^ 16
    → Reads
        (contours_loop (length ns) before)
        (counts_bytes ns)
        (last_points before ns, before + total ns)
unfolding contours_loop
loop_Reads [] before p h =
    let e : before ≡ before + 0 = omega arith in
    subst (λ k. Reads {A = List ℕ × ℕ} (pure ([], before)) [] ([], k)) e (Reads-pure ([], before))
loop_Reads (n ∷ ns) before (pn, p) h =
    let e : (before + n) % 2 ^ 16 ≡ before + n = omega arith in
    let d : (2 ^ 16 + (before + n) - 1) % 2 ^ 16 ≡ before + n - 1 = omega arith in
    let t : before + n + total ns ≡ before + (n + total ns) = omega arith in
    Reads->>= read_packed_u16 _ (packed_bytes n) (counts_bytes ns) n
      (last_points before (n ∷ ns), before + (n + total ns)) (packed_Reads n (omega arith))
      (rw (e, d, ← t)
        (Reads-map (contours_loop (length ns) (before + n)) (λ r. ((before + n - 1) ∷ r.0, r.1))
          (counts_bytes ns) (last_points (before + n) ns, before + n + total ns)
          (loop_Reads ns (before + n) p (omega arith))))

-- On a valid context that begins with the encoded point counts of contours, none of them zero and
-- their sum below 2 ^ 16, `compute_end_pts_of_contours` gives the last point of each contour and
-- the number of points, and stops behind the counts.
pub compute_end_pts_of_contours-counts_bytes :
    (ns : List ℕ) (c : ReadCtxt) (rest : List ℕ)
    → All (λ n. 0 < n) ns
    → total ns < 2 ^ 16
    → IsValid c
    → remaining c ≡ counts_bytes ns ++ rest
    → compute_end_pts_of_contours (pos (length ns)) c
      ≡ ok ((last_points 0 ns, total ns), advance c (length (counts_bytes ns)))
unfolding compute_end_pts_of_contours
compute_end_pts_of_contours-counts_bytes ns c rest p h v e =
    let z : 0 + total ns ≡ total ns = omega arith in
    loop_Reads ns 0 p (omega arith) c rest v e
    ∙ ap (λ k. ok ((last_points 0 ns, k), advance c (length (counts_bytes ns)))) z
