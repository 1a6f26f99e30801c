-- ===== src/Client/Bump.antt =====
-- attestation/attestclient.go: what the transaction pays after bumpAttestationFees.
use mainstay.Prelude.{
  ℕ, ◌+◌, ◌-◌, ◌*◌, ◌/◌, ◌≤◌, ◌<◌, ◌≡◌, sym, ap, ◌∙◌, arith, false, some, List, ◌∷◌, length,
}
use mainstay.Prelude.Int.{ℤ, pos, negsuc, ◌-ℤ◌, ◌*ℤ◌, ◌≤ℤ◌, ◌<ℤ◌, wrap64, wrap64_id}
use mainstay.Wire.{Wire, MsgTx, TxOut}
use mainstay.Fees.{get_fee, bump_fee}
use mainstay.Fees.Bounds.{IsValid, CanBump, bump_fee_mono, bumps-eq-min}
use mainstay.Client.{AttestClient}
use mainstay.Client.Tx.{
  calc_signed_tx_size, calc_signed_tx_fee, tx_fee, remove_sigs, pay_fee, bumped_fees,
  bump_attestation_fees,
}

add_mul : (d f s : ℕ) → (d + f) * s ≡ d * s + f * s
add_mul d f s = omega arith

difference : (f g s : ℕ) → f ≤ g → (g - f) * s + f * s ≡ g * s
difference f g s h =
    let split : g - f + f ≡ g = omega arith in sym (add_mul (g - f) f s) ∙ ap (λ n. n * s) split

times_pos : (d s : ℕ) → pos d *ℤ pos s ≡ pos (d * s)
unfolding ◌*ℤ◌
times_pos d s = ground arith

wrapped_fee : (d s : ℕ) → d * s < 9223372036854775808 → wrap64 (pos d *ℤ pos s) ≡ pos (d * s)
wrapped_fee d s h = rw (times_pos d s) (wrap64_id (pos (d * s)) (omega arith, h))

remaining :
    (t a b : ℕ)
    → t < 9223372036854775808
    → a + b < 9223372036854775808
    → wrap64 ((pos t -ℤ pos a) -ℤ pos b) ≡ pos t -ℤ pos (a + b)
unfolding ◌-ℤ◌ wrap64
remaining t a b h k = ground arith

fee_difference : (f g : ℕ) → f ≤ g → g ≤ 100 → wrap64 (pos g -ℤ pos f) ≡ pos (g - f)
unfolding ◌-ℤ◌ wrap64
fee_difference f g up top = ground arith

-- The value of the output after the difference of two fees per byte f ≤ g is paid for s bytes.
paid_value :
    (t f g s : ℕ)
    → t < 9223372036854775808
    → f ≤ g
    → g ≤ 100
    → 100 * s < 9223372036854775808
    → wrap64 ((pos t -ℤ (pos f *ℤ pos s)) -ℤ wrap64 (wrap64 (pos g -ℤ pos f) *ℤ pos s))
      ≡ pos t -ℤ (pos g *ℤ pos s)
paid_value t f g s small up top size =
    let parts = difference f g s up in
    let most = difference g 100 s top in
    let whole : f * s + (g - f) * s ≡ g * s = omega (arith, parts) in
    rw (
      times_pos f s,
      fee_difference f g up top,
      wrapped_fee (g - f) s (omega (arith, parts, most)),
      remaining t (f * s) ((g - f) * s) small (omega (arith, parts, most)),
      times_pos g s,
      whole,
    )

paid_fee :
    (t s : ℕ) (current new : ℤ)
    → pos 0 <ℤ current
    → current ≤ℤ new
    → new ≤ℤ pos 100
    → t < 9223372036854775808
    → 100 * s < 9223372036854775808
    → wrap64 ((pos t -ℤ (current *ℤ pos s)) -ℤ wrap64 (wrap64 (new -ℤ current) *ℤ pos s))
      ≡ pos t -ℤ (new *ℤ pos s)
paid_fee t s (pos f) (pos g) some_fee up top small size =
    paid_value t f g s small (omega arith) (omega arith) size
paid_fee t s (negsuc f) new some_fee up top small size = absurd (omega arith)
paid_fee t s (pos f) (negsuc g) some_fee up top small size = absurd (omega arith)

module _ {Hash : Type 0} ⦃w : Wire Hash⦄ where
  -- The size of the signed transaction, for which the fee is paid.
  abbrev pub signed_size : AttestClient → MsgTx Hash → ℕ
  signed_size a tx =
      calc_signed_tx_size w.var_int_size (w.serialize_size (remove_sigs tx)) (length a.script0 / 2)
        a.num_of_sigs (length (remove_sigs tx).tx_in)

  pay_fee-first :
      (fee : ℤ) (tx : MsgTx Hash) (out : TxOut) (outs : List TxOut)
      → tx.tx_out ≡ out ∷ outs
      → pay_fee fee tx
        ≡ some (record tx { tx_out = record out { value = wrap64 (out.value -ℤ fee) } ∷ outs })
  unfolding pay_fee
  pay_fee-first fee tx out outs e = rw e

  -- A transaction that pays the current fee for its signed size out of a total pays, after
  -- bumpAttestationFees with the flag down, the bumped fee for that size out of the same total,
  -- and its signatures are removed; if the fees are valid, their increment stays below the
  -- overflow of an `int`, and the total and the largest fee for the size are of an `int64`.
  pub bump_attestation_fees-pays :
      (a : AttestClient) (tx : MsgTx Hash) (out : TxOut) (outs : List TxOut) (t : ℕ)
      → IsValid a.fees
      → CanBump a.fees
      → t < 9223372036854775808
      → 100 * signed_size a tx < 9223372036854775808
      → tx.tx_out ≡ out ∷ outs
      → out.value ≡ pos t -ℤ (a.fees.current_fee *ℤ pos (signed_size a tx))
      → let b = bump_fee a.fees in
        let value = pos t -ℤ (b.current_fee *ℤ pos (signed_size a tx)) in
        bump_attestation_fees tx false a
        ≡ some (
          record a { fees = b },
          record (remove_sigs tx) { tx_out = record out { value = value } ∷ outs },
        )
  unfolding bump_attestation_fees bumped_fees tx_fee calc_signed_tx_fee remove_sigs get_fee
  bump_attestation_fees-pays a tx out outs t v can small size e pays =
      let b = bump_fee a.fees in
      let valid = (bumps-eq-min 1 a.fees v can).0 in
      let up = (bump_fee_mono a.fees v can).1 in
      let s = signed_size a tx in
      let worth =
        paid_fee t s a.fees.current_fee b.current_fee (ground arith) up (ground arith) small size in
      rw (pay_fee-first _ (remove_sigs tx) out outs e, pays, worth)
