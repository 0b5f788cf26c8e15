-- ===== src/Runtime/Copy.antt =====
-- src/llvmtranslate/runtime.cc: the loops that copy bytes end, having copied them.
use tiger_compilor.Prelude.{
  ℕ, zero, suc, ◌+◌, ◌*◌, ◌%◌, ◌<◌, ◌≡◌, ◌≢◌, refl, sym, ap, ◌∙◌, true, false, [], ◌∷◌, ◌++◌,
  length, ltb, arith, append_assoc,
}
use tiger_compilor.Prelude.Bytes.{Bytes}
use tiger_compilor.Runtime.Machine.{word, half, Pointer, Memory, returns, ◌>>=◌, written}
use tiger_compilor.Runtime.Texts.{
  length-append, add_nsw-lem, gep-lem, load-lem, store-lem, written-lem, written_other,
}
use tiger_compilor.Runtime.{copy_loop}

-- The bytes `xs` are left to copy, from after `pre` in one object to the place of `ys` in another.
pub record Copying (src dst : Pointer) (first at n i : ℕ) (m : Memory) (pre xs post d ys zs : Bytes)
    : Type 0 where
  pub rounds : n ≡ i + length xs
  pub source_end : first + n < half
  pub target_end : at + n < half
  pub source : m.bytes src.block ≡ pre ++ (xs ++ post)
  pub source_at : length pre ≡ src.offset + (first + i)
  pub target : m.bytes dst.block ≡ d ++ (ys ++ zs)
  pub target_at : length d ≡ dst.offset + (at + i)
  pub room : length ys ≡ length xs
  pub apart : src.block ≢ dst.block

pub record Copied (dst : Pointer) (m m' : Memory) (d xs zs : Bytes) : Type 0 where
  pub target : m'.bytes dst.block ≡ d ++ (xs ++ zs)
  pub others : (b : ℕ) → b ≢ dst.block → m'.bytes b ≡ m.bytes b

pub copy_loop-Copied :
    (xs ys : Bytes) (fuel : ℕ) (src dst : Pointer) (first at n i : ℕ) (m : Memory)
    (pre post d zs : Bytes)
    → length xs < fuel
    → Copying src dst first at n i m pre xs post d ys zs
    → (m' : Memory) × (copy_loop fuel src dst first at n i m ≡ returns tt m')
      × Copied dst m m' d xs zs
unfolding copy_loop
copy_loop-Copied xs ys zero src dst first at n i m pre post d zs h c = absurd (omega arith)
copy_loop-Copied [] [] (suc fuel) src dst first at n i m pre post d zs h c =
    let done : ltb i n ≡ false = (let e = c.rounds in ground arith) in
    (m, rw (copy_loop, done) refl, record { target = c.target; others = λ b k. refl })
copy_loop-Copied [] (y ∷ ys) (suc fuel) src dst first at n i m pre post d zs h c =
    absurd (omega (arith, c.room))
copy_loop-Copied (x ∷ xs) [] (suc fuel) src dst first at n i m pre post d zs h c =
    absurd (omega (arith, c.room))
copy_loop-Copied (x ∷ xs) (y ∷ ys) (suc fuel) src dst first at n i m pre post d zs h c =
    let more : ltb i n ≡ true = (let e = c.rounds in ground arith) in
    let p : Pointer = record src { offset = src.offset + 1 * (first + i) } in
    let q : Pointer = record dst { offset = dst.offset + 1 * ((at + i) % word) } in
    let size_src : length (m.bytes src.block) ≡ length pre + suc (length (xs ++ post)) =
      ap length c.source ∙ length-append pre (x ∷ (xs ++ post)) in
    let size_dst : length (m.bytes dst.block) ≡ length d + suc (length (ys ++ zs)) =
      ap length c.target ∙ length-append d (y ∷ (ys ++ zs)) in
    let m₁ = written m q x in
    let (m', run, copied) =
      copy_loop-Copied xs ys fuel src dst first at n (i + 1) m₁ (pre ++ x ∷ []) post (d ++ x ∷ [])
        zs (omega arith)
        (record {
          rounds = omega (arith, c.rounds);
          source_end = c.source_end;
          target_end = c.target_end;
          source =
              written_other q m x src.block c.apart
              ∙ c.source
              ∙ sym (append_assoc pre (x ∷ []) (xs ++ post));
          source_at = omega (arith, length-append pre (x ∷ []), c.source_at);
          target =
              written-lem q m d (ys ++ zs) y x c.target
                (omega (arith, c.target_at, c.rounds, c.target_end))
              ∙ sym (append_assoc d (x ∷ []) (ys ++ zs));
          target_at = omega (arith, length-append d (x ∷ []), c.target_at);
          room = omega (arith, c.room);
          apart = c.apart;
        }) in
    (
      m',
      rw
          (
            copy_loop,
            more,
            ◌>>=◌,
            add_nsw-lem first i m (omega (arith, c.rounds, c.source_end)),
            gep-lem 1 (first + i) src m (omega (arith, c.rounds, c.source_end))
                (omega (arith, size_src, c.source_at)),
            load-lem p m pre (xs ++ post) x c.source (omega (arith, c.source_at)),
            gep-lem 1 ((at + i) % word) dst m (omega (arith, c.rounds, c.target_end))
                (omega (arith, size_dst, c.target_at, c.rounds, c.target_end)),
            store-lem q m x (omega (arith, size_dst, c.target_at, c.rounds, c.target_end)),
            add_nsw-lem i 1 m₁ (omega (arith, c.rounds, c.source_end)),
          )
          run,
      record {
        target = copied.target ∙ append_assoc d (x ∷ []) (xs ++ zs);
        others = λ b k. copied.others b k ∙ written_other q m x b k;
      },
    )
