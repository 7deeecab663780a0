-- ===== src/Session/Frame.antt =====
-- `sendError` of src/SubversionSession.cc: the report of a failure that the client gets.
use svnsrv.Base.{
  ℕ, ◌+◌, ◌%◌, ◌^◌, ◌≤◌, ◌<◌, [], ◌∷◌, ◌++◌, ◌≡◌, ◌≢◌, ◌∙◌, ap, length, take, drop, All,
  length-append, append_assoc, take-append_self, arith,
}
use svnsrv.Base.Decimal.{digits, length-digits, decimal-digits}
use svnsrv.Base.Run.{done}
use svnsrv.Base.Text.{Bytes, codes, decimal, c_str-no_zero}
use svnsrv.Session.{
  Session, starts, sends_error, failure_text, printed, write_error, send_error, send_text,
  buffer_size,
}

length-failure_text :
    (eid : ℕ) (msg : Bytes)
    → All (λ c. c ≢ 0) msg
    → eid < 10 ^ 10
    → length msg < 10 ^ 10
    → length (failure_text eid (length msg) msg) < length msg + 64
unfolding failure_text
length-failure_text eid msg z he hm =
    let tail : Bytes = codes " 0: 0 ) ) ) " in
    rw (c_str-no_zero msg z) (
      omega (
        arith,
        length-append (digits eid) (b' ' ∷ (digits (length msg) ++ (b':' ∷ (msg ++ tail)))),
        length-append (digits (length msg)) (b':' ∷ (msg ++ tail)),
        length-append msg tail,
        length-digits 9 eid he,
        length-digits 9 (length msg) hm,
      ))

printed-fits : (n : ℕ) (text : Bytes) → length text < n → printed n text ≡ text ++ 0 ∷ []
unfolding printed
printed-fits n text h = ground arith

take-stored : (text rest : Bytes) → take (length text) ((text ++ 0 ∷ []) ++ rest) ≡ text
take-stored text rest =
    ap (take (length text)) (append_assoc text (0 ∷ []) rest) ∙ take-append_self text (0 ∷ rest)

write_error-fits :
    (text : Bytes) (s : Session)
    → length text < buffer_size
    → (buffer : Bytes) × (write_error text (text ++ 0 ∷ []) s
        ≡ done (record s { buffer = buffer }, starts (sends_error text) ∷ []))
unfolding write_error
write_error-fits text s h =
    let rest = drop (length (text ++ 0 ∷ [])) s.buffer in
    ((text ++ 0 ∷ []) ++ rest, ground (arith, take-stored text rest, length-append text (0 ∷ [])))

send_failure :
    (eid : ℕ) (msg : Bytes) (s : Session)
    → All (λ c. c ≢ 0) msg
    → eid < 10 ^ 10
    → length msg ≤ 30000
    → (buffer : Bytes) × (send_text eid msg s
        ≡ done (
          record s { buffer = buffer },
          starts (sends_error (failure_text eid (length msg) msg)) ∷ [],
        ))
unfolding send_text send_error
send_failure eid msg s z he hm =
    let text = failure_text eid (length msg) msg in
    let lt = length-failure_text eid msg z he (omega arith) in
    let sent = write_error-fits text s (omega arith) in
    (
      sent.0,
      ap (λ stored. write_error text stored s)
            (printed-fits ((length msg + 64) % 2 ^ 32) text (omega arith))
          ∙ sent.1,
    )

-- A message without a zero byte, of up to 30000 bytes, under an error number of up to ten digits is
-- sent whole: `sendError` does not overrun the buffer and starts one write, of the failure
-- response that holds the number and the message behind its length. The two numerals in it read as
-- the error number and as the message's length.
pub send_text-frame :
    (eid : ℕ) (msg : Bytes) (s : Session)
    → All (λ c. c ≢ 0) msg
    → eid < 10 ^ 10
    → length msg ≤ 30000
    → (buffer : Bytes) × (send_text eid msg s
        ≡ done (
          record s { buffer = buffer },
          starts (
                sends_error (
                  codes "( failure ( ( "
                  ++ (digits eid
                      ++ (b' ' ∷ (digits (length msg) ++ (b':' ∷ (msg ++ codes " 0: 0 ) ) ) ")))))))
              ∷ [],
        ))
      × (decimal (digits eid) ≡ eid)
      × (decimal (digits (length msg)) ≡ length msg)
unfolding failure_text
send_text-frame eid msg s z he hm =
    let sent = send_failure eid msg s z he hm in
    (sent.0, sent.1 ∙ rw (c_str-no_zero msg z), decimal-digits eid, decimal-digits (length msg))
