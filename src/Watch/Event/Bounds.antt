-- ===== src/Watch/Event/Bounds.antt =====
-- decode reads nothing out of range, and ends.
use fern.Prelude.{
  ℕ, zero, suc, ◌+◌, ◌-◌, ◌≤◌, ◌≡◌, refl, ap, Bool, true, false, ◌||◌, not, [], ◌∷◌, arith, Bytes,
  ltb, ◌==◌, length,
}
use fern.Watch.Slices.{
  Out, ok, Returns, Returns-bind, slice, slice_from, uint, byte_at, fail_if, bind-ok, ◌>>◌,
  fail_if-ok, short, version, Error, slice-Returns, uint-Returns, slice-length,
}
use fern.Watch.Event.{
  Event, bad_lengths, metadata_version, named, handle_record, info, info_record, info_fuel,
  event_at, decode_fuel, decode, info_header, handle_header, fsid_len, metadata_len,
}

named-Returns :
    (typ : ℕ) (rec : Bytes) (h_len : ℕ) (e : Event)
    → handle_header + h_len ≤ length rec
    → Returns (named typ rec h_len e)
unfolding named slice_from
named-Returns typ rec h_len e fits =
    ground (arith, slice-Returns rec (handle_header + h_len) (length rec))

-- The code goes on after a test only if that did not hold.
Returns-fail_if {ℓ} :
    {A : Type ℓ} (b : Bool) (e : Error) (m : Out A)
    → (b ≡ false → Returns m)
    → Returns (fail_if b e >> m)
Returns-fail_if true e m h = tt
Returns-fail_if false e m h = h refl

handle_record-Returns : (typ : ℕ) (rec : Bytes) (e : Event) → Returns (handle_record typ rec e)
unfolding handle_record slice_from
handle_record-Returns typ rec e =
    Returns-fail_if (ltb (length rec) (fsid_len + handle_header)) short _ λ long.
      let enough : fsid_len + handle_header ≤ length rec = ground arith in
      Returns-bind _ _ (slice-Returns rec fsid_len (length rec) (omega arith) (omega arith))
        λ body s.
          let n = slice-length rec fsid_len (length rec) s in
          Returns-bind _ _ (uint-Returns 4 body 0 (omega arith)) λ h_len _.
            Returns-bind _ _ (uint-Returns 4 body 4 (omega arith)) λ h_type _.
              Returns-fail_if (ltb (length body - handle_header) h_len) short _ λ held.
                let fits : handle_header + h_len ≤ length body = ground arith in
                Returns-bind _ _
                  (slice-Returns body handle_header (handle_header + h_len) (omega arith) fits)
                  λ handle _. named-Returns typ body h_len _ fits

info_record-Returns : (typ : ℕ) (rec : Bytes) (e : Event) → Returns (info_record typ rec e)
unfolding info_record
info_record-Returns typ rec e = ground (arith, handle_record-Returns typ rec e)

info_fuel-Returns :
    (fuel : ℕ) (recs : Bytes) (e : Event) → length recs ≤ fuel → Returns (info_fuel fuel recs e)
unfolding info_fuel slice_from byte_at
info_fuel-Returns zero [] e h = tt
info_fuel-Returns (suc fuel) [] e h = tt
info_fuel-Returns zero (r ∷ rs) e h = absurd (omega arith)
info_fuel-Returns (suc fuel) (r ∷ rs) e h =
    let recs : Bytes = r ∷ rs in
    Returns-fail_if (ltb (length recs) info_header) short _ λ long.
      let enough : info_header ≤ length recs = ground arith in
      Returns-bind _ _ (uint-Returns 1 recs 0 (omega arith)) λ typ _.
        Returns-bind _ _ (uint-Returns 2 recs 2 (omega arith)) λ n _.
          Returns-fail_if (ltb n info_header || ltb (length recs) n) short _ λ sized.
            let above : info_header ≤ n = ground arith in
            let below : n ≤ length recs = ground arith in
            Returns-bind _ _ (slice-Returns recs info_header n above below) λ rec _.
              Returns-bind _ _ (slice-Returns recs n (length recs) below (omega arith)) λ rest s.
                let left = slice-length recs n (length recs) s in
                Returns-bind _ _ (info_record-Returns typ rec e)
                  λ e' _. info_fuel-Returns fuel rest e' (omega arith)

event_at-Returns : (buf : Bytes) → Returns (event_at buf)
unfolding event_at info byte_at
event_at-Returns buf = Returns-fail_if (ltb (length buf) metadata_len) short _ λ long.
    let enough : metadata_len ≤ length buf = ground arith in
    Returns-bind _ _ (uint-Returns 4 buf 0 (omega arith)) λ ev_len _.
      Returns-bind _ _ (uint-Returns 1 buf 4 (omega arith)) λ vers _.
        Returns-bind _ _ (uint-Returns 2 buf 6 (omega arith)) λ meta_len _.
          Returns-fail_if (not (vers == metadata_version)) (version vers) _ λ _.
            Returns-fail_if (bad_lengths buf ev_len meta_len) short _ λ sized.
              let inside : meta_len ≤ ev_len = ground arith in
              let below : ev_len ≤ length buf = ground arith in
              Returns-bind _ _ (uint-Returns 8 buf 8 (omega arith)) λ mask _.
                Returns-bind _ _ (uint-Returns 4 buf 20 (omega arith)) λ pid _.
                  Returns-bind _ _ (slice-Returns buf meta_len ev_len inside below) λ recs _.
                    Returns-bind _ _ (info_fuel-Returns (length recs) recs _ (omega arith))
                      λ e _. tt

abbrev length_read : Out (Event × ℕ) → ℕ
length_read (ok p) = p.1
length_read _ = 0

-- An event that was read is no longer than the buffer, and no shorter than its metadata.
good_lengths :
    (buf : Bytes) (ev_len meta_len n : ℕ)
    → bad_lengths buf ev_len meta_len ≡ false
    → ev_len ≡ n
    → (metadata_len ≤ n) × (n ≤ length buf)
good_lengths buf ev_len meta_len n h e = ground arith

event_at-length :
    (buf : Bytes) (e : Event) (n : ℕ)
    → event_at buf ≡ ok (e, n)
    → (metadata_len ≤ n) × (n ≤ length buf)
unfolding event_at
event_at-length buf e n h =
    let (_, _, h) = bind-ok (fail_if (ltb (length buf) metadata_len) short) _ h in
    let (ev_len, _, h) = bind-ok (uint 4 buf 0) _ h in
    let (vers, _, h) = bind-ok (byte_at buf 4) _ h in
    let (meta_len, _, h) = bind-ok (uint 2 buf 6) _ h in
    let (_, _, h) = bind-ok (fail_if (not (vers == metadata_version)) (version vers)) _ h in
    let (_, sized, h) = bind-ok (fail_if (bad_lengths buf ev_len meta_len) short) _ h in
    let (mask, _, h) = bind-ok (uint 8 buf 8) _ h in
    let (pid, _, h) = bind-ok (uint 4 buf 20) _ h in
    let (recs, _, h) = bind-ok (slice buf meta_len ev_len) _ h in
    let (e', _, h) = bind-ok (info recs _) _ h in
    let same : ev_len ≡ n = ap length_read h in
    good_lengths buf ev_len meta_len n (fail_if-ok (bad_lengths buf ev_len meta_len) short sized)
      same

decode_fuel-Returns : (fuel : ℕ) (buf : Bytes) → length buf ≤ fuel → Returns (decode_fuel fuel buf)
unfolding decode_fuel slice_from
decode_fuel-Returns zero [] h = tt
decode_fuel-Returns (suc fuel) [] h = tt
decode_fuel-Returns zero (b ∷ bs) h = absurd (omega arith)
decode_fuel-Returns (suc fuel) (b ∷ bs) h =
    let buf : Bytes = b ∷ bs in
    Returns-bind _ _ (event_at-Returns buf) λ (e, n) read.
      let (least, most) = event_at-length buf e n read in
      Returns-bind _ _ (slice-Returns buf n (length buf) most (omega arith)) λ rest s.
        let left = slice-length buf n (length buf) s in
        Returns-bind _ _ (decode_fuel-Returns fuel rest (omega arith)) λ evs _. tt

-- Whatever bytes the kernel hands over, decode returns: with events or with an error. It never
-- indexes or slices a buffer out of range, which would panic, and never loops for ever.
pub decode-Returns : (buf : Bytes) → Returns (decode buf)
unfolding decode
decode-Returns buf = decode_fuel-Returns (length buf) buf (omega arith)
