-- ===== src/Tls/Records/Area.antt =====
-- The place of one record.
use win32_experiments.Common.{
  ℕ, ◌+◌, ◌-◌, ◌≡◌, sym, ap, ◌∙◌, [], ◌++◌, length, replicate, arith, append_assoc, length-append,
  length-replicate, drop-length-append,
}
use win32_experiments.Common.Buffers.{
  write_at, write_at-append, resize, resize-append, drop-replicate, replicate_add,
}
use win32_experiments.Tls.{Bytes, StreamSizes, record_area}

-- A write over a part of the same length.
write_at-over :
    (front old bytes back : Bytes)
    → length bytes ≡ length old
    → write_at (length front) bytes (front ++ (old ++ back)) ≡ front ++ (bytes ++ back)
write_at-over front old bytes back e =
    rw (write_at-append front bytes (old ++ back), e, drop-length-append old back)

abbrev zeros : ℕ → Bytes
zeros n = replicate n 0

length-zeros : (n : ℕ) → length (zeros n) ≡ n
length-zeros n = length-replicate {A = ℕ} n 0

-- Writes of the plain text, the trailer, the sealed data and the header, in this order.
pub record_area_lem :
    (sizes : StreamSizes) (chunk header sealed trailer : Bytes)
    → length header ≡ sizes.header
    → length sealed ≡ length chunk
    → record_area sizes chunk header sealed trailer
      ≡ header ++ (sealed ++ (trailer ++ zeros (sizes.trailer - length trailer)))
unfolding record_area
record_area_lem sizes chunk header sealed trailer h e =
    let n = length chunk in
    let a = zeros sizes.header in
    let left = zeros (sizes.trailer - length trailer) in
    let la = length-zeros sizes.header in
    let ln = length-zeros n in
    let split : zeros (sizes.header + n + sizes.trailer) ≡ a ++ (zeros n ++ zeros sizes.trailer) =
      (sym (replicate_add (sizes.header + n) sizes.trailer)
        ∙ ap (λ z. z ++ zeros sizes.trailer) (sym (replicate_add sizes.header n))
        ∙ append_assoc a (zeros n) (zeros sizes.trailer)) in
    let one : write_at sizes.header chunk (zeros (sizes.header + n + sizes.trailer))
        ≡ a ++ (chunk ++ zeros sizes.trailer) =
      (ap (write_at sizes.header chunk) split
        ∙ ap (λ k. write_at k chunk (a ++ (zeros n ++ zeros sizes.trailer))) (sym la)
        ∙ write_at-over a (zeros n) chunk (zeros sizes.trailer) (sym ln)) in
    let place : sizes.header + n ≡ length (a ++ chunk) =
      (let k = length-append a chunk in omega arith) in
    let two : write_at (sizes.header + n) trailer (a ++ (chunk ++ zeros sizes.trailer))
        ≡ a ++ (chunk ++ (trailer ++ left)) =
      (ap (λ k. write_at k trailer (a ++ (chunk ++ zeros sizes.trailer))) place
        ∙ ap (write_at (length (a ++ chunk)) trailer)
            (sym (append_assoc a chunk (zeros sizes.trailer)))
        ∙ write_at-append (a ++ chunk) trailer (zeros sizes.trailer)
        ∙ ap (λ z. (a ++ chunk) ++ (trailer ++ z)) (drop-replicate (length trailer) sizes.trailer)
        ∙ append_assoc a chunk (trailer ++ left)) in
    let three : write_at sizes.header sealed (a ++ (chunk ++ (trailer ++ left)))
        ≡ a ++ (sealed ++ (trailer ++ left)) =
      (ap (λ k. write_at k sealed (a ++ (chunk ++ (trailer ++ left)))) (sym la)
        ∙ write_at-over a chunk sealed (trailer ++ left) e) in
    ap
      (λ r.
        write_at 0 header (write_at sizes.header sealed (write_at (sizes.header + n) trailer r)))
      one
    ∙ ap (λ r. write_at 0 header (write_at sizes.header sealed r)) two
    ∙ ap (write_at 0 header) three
    ∙ write_at-over [] a header (sealed ++ (trailer ++ left)) (omega arith)

-- What `out` keeps of it.
pub resize-record_area :
    (sizes : StreamSizes) (out chunk header sealed trailer : Bytes)
    → length header ≡ sizes.header
    → length sealed ≡ length chunk
    → resize
        (length out + (length header + length sealed + length trailer))
        (out ++ record_area sizes chunk header sealed trailer)
      ≡ out ++ (header ++ (sealed ++ trailer))
resize-record_area sizes out chunk header sealed trailer h e =
    let left = zeros (sizes.trailer - length trailer) in
    let kept = out ++ (header ++ (sealed ++ trailer)) in
    let one = length-append sealed trailer in
    let two = length-append header (sealed ++ trailer) in
    let three = length-append out (header ++ (sealed ++ trailer)) in
    let size : length out + (length header + length sealed + length trailer) ≡ length kept =
      omega arith in
    let whole : out ++ (header ++ (sealed ++ (trailer ++ left))) ≡ kept ++ left = rw (
      append_assoc out (header ++ (sealed ++ trailer)) left,
      append_assoc header (sealed ++ trailer) left,
      append_assoc sealed trailer left,
    ) in
    ap (λ r. resize (length out + (length header + length sealed + length trailer)) (out ++ r))
      (record_area_lem sizes chunk header sealed trailer h e)
    ∙ ap (λ k. resize k (out ++ (header ++ (sealed ++ (trailer ++ left))))) size
    ∙ ap (resize (length kept)) whole
    ∙ resize-append kept left
