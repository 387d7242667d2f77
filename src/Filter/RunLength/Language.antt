-- ===== src/Filter/RunLength/Language.antt =====
-- The runs that `RunLengthDecoder` reads, as a relation.
use mathlib.Core.List.{append_assoc, append-nil}
use pdfv.Base.{
  ℕ, zero, suc, ◌+◌, ◌-◌, ◌≤◌, ◌<◌, Bytes, [], ◌∷◌, ◌++◌, ◌≡◌, ◌≢◌, ◌↔◌, ◌⊎◌, inl, inr, sym, ap,
  ◌∙◌, arith, take, drop, length, replicate, length-append, length-replicate, length-take,
  length-drop, take-length_append, take-append-drop, List-cases, drop-length_append,
}
use pdfv.Error.{ok, diverged, ◌>>=◌, u64_modulus, >>=-eq-ok, >>=-ne-diverged}
use pdfv.Filter.Output.{
  push_limited_byte, push_limited_byte-eq_ok, push_limited_byte-inv, extend_limited,
  extend_limited-eq_ok, extend_limited-inv,
}
use pdfv.Filter.RunLength.{push_repeated, copy_literal, run_length_loop, run_length_decode}

-- `RunText input output`: literal runs and repeated bytes, to the end of the data or to 128.
pub data RunText : Bytes → Bytes → Type 0 where
  stop : RunText [] []
  close : {len : ℕ} {rest : Bytes} → len ≡ 128 → RunText (len ∷ rest) []
  literal :
      {len : ℕ} (run rest : Bytes) {input output : Bytes}
      → len < 128
      → length run ≡ len + 1
      → input ≡ run ++ rest
      → RunText rest output
      → RunText (len ∷ input) (run ++ output)
  repeated :
      {len value : ℕ} {rest output : Bytes}
      → 128 < len
      → RunText rest output
      → RunText (len ∷ value ∷ rest) (replicate (257 - len) value ++ output)

push_repeated_complete :
    (count max : ℕ) (output : Bytes) (value : ℕ)
    → length output + count ≤ max
    → max < u64_modulus
    → push_repeated max output value count ≡ ok (output ++ replicate count value)
unfolding push_repeated
push_repeated_complete zero max output value h k = rw append-nil
push_repeated_complete (suc count) max output value h k =
    rw (push_limited_byte-eq_ok output value max (omega arith) k) (
      push_repeated_complete count max (output ++ value ∷ []) value
        (omega (arith, length-append output (value ∷ []))) k
      ∙ ap ok (append_assoc output (value ∷ []) _))

push_repeated_sound :
    (count max : ℕ) (output : Bytes) (value : ℕ) (out : Bytes)
    → length output ≤ max
    → push_repeated max output value count ≡ ok out
    → (out ≡ output ++ replicate count value) × (length out ≤ max)
unfolding push_repeated
push_repeated_sound zero max output value out l h = rw append-nil (ground arith)
push_repeated_sound (suc count) max output value out l h =
    let (o, pushed, later) = >>=-eq-ok (push_limited_byte output value max) _ h in
    let i = push_limited_byte-inv output value max o pushed in
    let fits : length o ≤ max = rw i.0 (omega (arith, length-append output (value ∷ []), i.1)) in
    let (e, b) = push_repeated_sound count max o value out fits later in
    (e ∙ ap (λ (t : Bytes). t ++ replicate count value) i.0 ∙ append_assoc output (value ∷ []) _, b)

copy_literal_complete :
    (max : ℕ) (output run rest : Bytes) (count : ℕ)
    → length run ≡ count
    → length output + length run ≤ max
    → max < u64_modulus
    → copy_literal max output count (run ++ rest) ≡ ok (output ++ run)
unfolding copy_literal
copy_literal_complete max output run rest count e h k = rw (← e) (
    rw (take-length_append run rest)
      (ground (arith, length-append run rest, extend_limited-eq_ok output run max)))

copy_literal_sound :
    (max : ℕ) (output : Bytes) (count : ℕ) (rest out : Bytes)
    → copy_literal max output count rest ≡ ok out
    → (count ≤ length rest) × (out ≡ output ++ take count rest) × (length out ≤ max)
unfolding copy_literal
copy_literal_sound max output count rest out h = ground (
  arith,
  extend_limited-inv output (take count rest) max out,
  length-append output (take count rest),
)

loop-literal :
    (fuel max : ℕ) (output : Bytes) (len : ℕ) (rest : Bytes)
    → len < 128
    → run_length_loop (suc fuel) max output (len ∷ rest) ≡ (
        copy_literal max output (len + 1) rest >>= λ output'.
        run_length_loop fuel max output' (drop (len + 1) rest))
unfolding run_length_loop
loop-literal fuel max output len rest h = ground arith

loop-repeated :
    (fuel max : ℕ) (output : Bytes) (len value : ℕ) (rest : Bytes)
    → 128 < len
    → run_length_loop (suc fuel) max output (len ∷ value ∷ rest) ≡ (
        push_repeated max output value (257 - len) >>= λ output'.
        run_length_loop fuel max output' rest)
unfolding run_length_loop
loop-repeated fuel max output len value rest h = ground arith

drop-run : (run rest : Bytes) (n : ℕ) → length run ≡ n → drop n (run ++ rest) ≡ rest
drop-run run rest n e = rw (← e) (drop-length_append run rest)

-- The loop reads a text of the language, with any output before it.
run_length_loop_complete :
    {input out : Bytes} (fuel max : ℕ) (output : Bytes)
    → RunText input out
    → length input < fuel
    → length output + length out ≤ max
    → max < u64_modulus
    → run_length_loop fuel max output input ≡ ok (output ++ out)
unfolding run_length_loop
run_length_loop_complete zero max output t f h k = absurd (omega arith)
run_length_loop_complete (suc fuel) max output stop f h k = rw append-nil
run_length_loop_complete (suc fuel) max output (close {len} e) f h k =
    rw (append-nil output) (ground arith)
run_length_loop_complete (suc fuel) max output
      (literal {len} run rest {input} {output = out} small size e t) f h k =
    let total = length-append run out in
    let split = length-append run rest in
    let size' = length-append output run in
    let same = ap length e in
    loop-literal fuel max output len input small
    ∙ rw
        (
          e,
          copy_literal_complete max output run rest (len + 1) size (omega arith) k,
          drop-run run rest (len + 1) size,
        )
        (run_length_loop_complete {input = rest} {out = out} fuel max (output ++ run) t
            (omega arith) (omega arith) k
          ∙ ap ok (append_assoc output run out))
run_length_loop_complete (suc fuel) max output (repeated {len} {value} {rest} {output = out} big t)
      f h k =
    let run = replicate (257 - len) value in
    let total = length-append run out in
    let size = length-replicate (257 - len) value in
    let size' = length-append output run in
    loop-repeated fuel max output len value rest big
    ∙ rw (push_repeated_complete (257 - len) max output value (omega arith) k) (
        run_length_loop_complete {input = rest} {out = out} fuel max (output ++ run) t (omega arith)
          (omega arith) k
        ∙ ap ok (append_assoc output run out))

abbrev Decoded : ℕ → Bytes → Bytes → Bytes → Type 0
Decoded max output input out =
    (run : Bytes) × RunText input run × (out ≡ output ++ run) × (length out ≤ max)

run_length_loop-close :
    (fuel max : ℕ) (output : Bytes) (len : ℕ) (rest : Bytes)
    → len ≡ 128
    → run_length_loop (suc fuel) max output (len ∷ rest) ≡ ok output
unfolding run_length_loop
run_length_loop-close fuel max output len rest h = ground arith

run_length_loop_truncated :
    (fuel max : ℕ) (output : Bytes) (len : ℕ) (rest out : Bytes)
    → 128 < len
    → rest ≡ []
    → run_length_loop (suc fuel) max output (len ∷ rest) ≢ ok out
unfolding run_length_loop
run_length_loop_truncated fuel max output len rest out h e = rw e (ground arith)

len-cases : (len : ℕ) → (len ≡ 128) ⊎ ((len < 128) ⊎ (128 < len))
len-cases len = grind arith

run_length_loop_sound :
    (fuel max : ℕ) (output input out : Bytes)
    → length output ≤ max
    → run_length_loop fuel max output input ≡ ok out
    → Decoded max output input out
unfolding run_length_loop
run_length_loop_sound zero max output input out l h = cc
run_length_loop_sound (suc fuel) max output [] out l h =
    ([], stop, rw append-nil (ground arith), ground arith)
run_length_loop_sound (suc fuel) max output (len ∷ rest) out l h = elim (len-cases len) [
  | inl at ↦
      let e = run_length_loop-close fuel max output len rest at in
      ([], close at, rw append-nil (cc), ground arith)
  | inr (inl small) ↦
      let (o, copied, later) =
        >>=-eq-ok _ _ (sym (loop-literal fuel max output len rest small) ∙ h) in
      let (room, same, fits) = copy_literal_sound max output (len + 1) rest o copied in
      let (run, t, e, b) = run_length_loop_sound fuel max o (drop (len + 1) rest) out fits later in
      let run' = take (len + 1) rest in
      (
        run' ++ run,
        literal run' (drop (len + 1) rest) small (length-take (len + 1) rest room)
            (sym (take-append-drop (len + 1) rest)) t,
        e ∙ ap (λ (x : Bytes). x ++ run) same ∙ append_assoc output run' run,
        b,
      )
  | inr (inr big) ↦ elim (List-cases rest) [
    | inl e ↦ absurd (run_length_loop_truncated fuel max output len rest out big e h)
    | inr (value, rest', e) ↦
        let h' = sym (loop-repeated fuel max output len value rest' big) ∙ (rw e at h) in
        let (o, pushed, later) = >>=-eq-ok _ _ h' in
        let (same, fits) = push_repeated_sound (257 - len) max output value o l pushed in
        let (run, t, e', b) = run_length_loop_sound fuel max o rest' out fits later in
        let run' = replicate (257 - len) value in
        (
          run' ++ run,
          rw e (repeated big t),
          e' ∙ ap (λ (x : Bytes). x ++ run) same ∙ append_assoc output run' run,
          b,
        )
  ]
]

-- The decoder returns `out` exactly when the input is a sequence of runs that stands for `out`,
-- and `out` fits the limit. The limit is a `u64`.
pub run_length_decode_iff :
    (max : ℕ) (input out : Bytes)
    → max < u64_modulus
    → (run_length_decode max input ≡ ok out) ↔ (RunText input out × (length out ≤ max))
unfolding run_length_decode
run_length_decode_iff max input out k = (
  λ h.
      let (run, t, e, b) =
        run_length_loop_sound (suc (length input)) max [] input out (omega arith) h in
      (rw e t, b),
  λ d. run_length_loop_complete (suc (length input)) max [] d.0 (omega arith) (omega arith) k,
)

push_repeated_total :
    (count max : ℕ) (output : Bytes) (value : ℕ) → push_repeated max output value count ≢ diverged
unfolding push_repeated push_limited_byte
push_repeated_total zero max output value = cc
push_repeated_total (suc count) max output value =
    ground (arith, push_repeated_total count max (output ++ value ∷ []) value)

copy_literal_total :
    (max : ℕ) (output : Bytes) (count : ℕ) (rest : Bytes)
    → copy_literal max output count rest ≢ diverged
unfolding copy_literal extend_limited
copy_literal_total max output count rest = ground arith

run_length_loop_total :
    (fuel max : ℕ) (output input : Bytes)
    → length input < fuel
    → run_length_loop fuel max output input ≢ diverged
unfolding run_length_loop
run_length_loop_total zero max output input h = absurd (omega arith)
run_length_loop_total (suc fuel) max output [] h = cc
run_length_loop_total (suc fuel) max output (len ∷ rest) h = elim (len-cases len) [
  | inl at ↦ rw (run_length_loop-close fuel max output len rest at) (cc)
  | inr (inl small) ↦ rw (loop-literal fuel max output len rest small) (
      >>=-ne-diverged _ _ (copy_literal_total max output (len + 1) rest)
        λ o. run_length_loop_total fuel max o _ (omega (arith, length-drop (len + 1) rest)))
  | inr (inr big) ↦ elim (List-cases rest) [
    | inl e ↦ rw e (ground arith)
    | inr (value, rest', e) ↦
        rw (e, loop-repeated fuel max output len value rest' big)
          (let same = ap length e in
            >>=-ne-diverged _ _ (push_repeated_total (257 - len) max output value)
              λ o. run_length_loop_total fuel max o _ (omega arith))
  ]
]

-- The decoder terminates on every input: it returns a result or an error of the source.
pub run_length_decode_total : (max : ℕ) (input : Bytes) → run_length_decode max input ≢ diverged
unfolding run_length_decode
run_length_decode_total max input =
    run_length_loop_total (suc (length input)) max [] input (omega arith)
