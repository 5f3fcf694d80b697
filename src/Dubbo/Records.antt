-- ===== src/Dubbo/Records.antt =====
-- proto/dubbo_codec.go and message/dubbo.go: which frames become records, and which end the program.
use traffic.Base.Outcome.{Outcome, ok, panic, ◌>>=◌, at}
use traffic.Base.{
  ℕ, false, not, ◌&&◌, ◌⊎◌, Option, none, some, ◌≡◌, refl, inl, inr, if◌then◌else◌, Bool-cases,
}
use traffic.Http.Search.{Bytes}
use traffic.Packet.{HdrError}
use traffic.Dubbo.{
  Package, Flags, Body, request_body, response_body, other_body, Value, Response, RpcResult,
  DecodeResult, has_flag, is_nil, is_request, decode_response, decode, result_of_body, assembled,
  record_of, assemble_dubbo_data, of_response,
}

-- The body of a package as a response: the result, or the panic of the type assertion.
Result-cases :
    (failure : Value) (b : Body)
    → (result_of_body {E = HdrError} failure b ≡ panic)
      ⊎ ((x : RpcResult × Value) × (result_of_body {E = HdrError} failure b ≡ ok x))
unfolding result_of_body
Result-cases failure other_body = inl refl
Result-cases failure (request_body v a f) = inl refl
Result-cases failure (response_body r) = inr (_, refl)

module _ (flags : Flags) (unmarshal unmarshal_request : Bytes → Outcome HdrError Package)
    (frame : Bytes) (b : ℕ) (third : at {E = HdrError} frame 2 ≡ ok b) where
  is_request-third : is_request {E = HdrError} frame ≡ ok (has_flag b 0x80)
  unfolding is_request
  is_request-third = rw third refl

  answered : Response × ℕ × Value → Outcome HdrError (Option DecodeResult)
  answered x = if is_nil x.2 then ok (some (of_response x.0)) else ok none

  decode-answered :
      has_flag b 0x80 ≡ false
      → decode flags unmarshal unmarshal_request frame
        ≡ decode_response flags unmarshal unmarshal_request frame >>= answered
  unfolding decode answered
  decode-answered h = rw (is_request-third, h) refl

  -- A frame without the flag of a request, that the codec reads: unless it is a heartbeat whose answer
  -- carries an error, the program ends with a run-time panic.
  pub assemble_dubbo_data_response :
      (pkg : Package)
      → has_flag b 0x80 ≡ false
      → unmarshal frame ≡ ok pkg
      → assemble_dubbo_data flags unmarshal unmarshal_request frame ≡ (
          if has_flag pkg.kind flags.heartbeat
            && (has_flag pkg.kind flags.response && not (is_nil pkg.failure))
          then ok none
          else panic)
  unfolding assemble_dubbo_data assembled record_of decode_response answered
  assemble_dubbo_data_response pkg h e =
      rw (decode-answered h, e)
        (elim (Bool-cases (has_flag pkg.kind flags.heartbeat)) [
          | inl a ↦ elim (Bool-cases (has_flag pkg.kind flags.response)) [
            | inl r ↦ elim (Bool-cases (is_nil pkg.failure)) [
              | inl n ↦ rw (a, r, n) refl
              | inr n ↦ rw (a, r, n) refl
            ]
            | inr r ↦ rw (a, r) refl
          ]
          | inr a ↦ elim (Bool-cases (has_flag pkg.kind flags.request)) [
            | inl r ↦ rw (a, r) refl
            | inr r ↦ elim (Result-cases pkg.failure pkg.body) [
              | inl p ↦ rw (a, r, p) refl
              | inr (x, p) ↦ rw (a, r, p) refl
            ]
          ]
        ])
