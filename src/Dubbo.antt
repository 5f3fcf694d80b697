-- ===== src/Dubbo.antt =====
-- proto/dubbo_codec.go and message/dubbo.go: the records of Dubbo frames. The package dubbo-go reads a
-- frame: what `Unmarshal` leaves of it is an argument, and so are its errors.
pub mod Records
use traffic.Base.Encoding.{ℤ}
use traffic.Base.Outcome.{Outcome, ok, err, panic, loops, ◌>>=◌, at}
use traffic.Base.{
  ℕ, ◌+◌, Bool, true, false, not, List, [], ◌∷◌, Option, none, some, ◌==◌, if◌then◌else◌,
}
use traffic.Http.Search.{Bytes}
use Prim.Native.Nat.{bit_and}

-- A value of type interface{}: nil, a string, a list, a map, or a value of another type.
mutual
  pub data Value : Type 0 where
    nil : Value
    text : Bytes → Value
    array : Values → Value
    dict : Fields → Value
    other : ℕ → Value

  pub data Values : Type 0 where
    no_values : Values
    value : Value → Values → Values

  pub data Fields : Type 0 where
    no_fields : Fields
    field : Bytes → Value → Fields → Fields

-- `impl.ResponsePayload`
pub record ResponsePayload : Type 0 where
  pub exception : Value
  pub attachments : Fields
  pub rsp_obj : Value

-- The body of a package: the parts of a request, by the keys that are read, a response, or neither.
pub data Body : Type 0 where
  request_body : Value → Value → Value → Body
  response_body : ResponsePayload → Body
  other_body : Body

-- `DubboPackage` behind `Unmarshal`, with its header and service
pub record Package : Type 0 where
  pub id : ℤ
  pub serial_id : ℕ
  pub kind : ℕ
  pub response_status : ℕ
  pub body_len : ℕ
  pub method : Bytes
  pub body : Body
  pub failure : Value

-- What the constants of the package impl and hessian are.
pub record Flags : Type 0 where
  pub two_way : ℕ
  pub heartbeat : ℕ
  pub request : ℕ
  pub response : ℕ
  pub header_length : ℕ
  pub response_ok : ℕ

-- `RPCInvocation`, of the options that it is made with
pub record Invocation : Type 0 where
  pub attachments : Fields
  pub arguments : Values
  pub method_name : Bytes

-- `remoting.Request`; a version that is not set is empty
pub record Request : Type 0 where
  pub id : ℤ
  pub serial_id : ℕ
  pub two_way : Bool
  pub event : Bool
  pub version : Bytes
  pub invocation : Option Invocation

-- `RPCResult`
pub record RpcResult : Type 0 where
  pub failure : Value
  pub attrs : Fields
  pub rest : Value

-- `remoting.Response`
pub record Response : Type 0 where
  pub id : ℤ
  pub serial_id : ℕ
  pub status : ℕ
  pub event : Bool
  pub failure : Value
  pub result : Option RpcResult

pub data DecodeResult : Type 0 where
  of_request : Request → DecodeResult
  of_response : Response → DecodeResult

abbrev pub has_flag : ℕ → ℕ → Bool
has_flag kind flag = not (bit_and kind flag == 0)

abbrev pub is_nil : Value → Bool
is_nil nil = true
is_nil _ = false

-- `isRequest`
unfoldable pub is_request : {E : Type 0} → Bytes → Outcome E Bool
is_request frame = do b ← at frame 2; ok (has_flag b 0x80)

module _ {E : Type 0} where
  -- type assertions, which panic on a value of another type
  unfoldable pub as_text : Value → Outcome E Bytes
  as_text (text s) = ok s
  as_text _ = panic

  unfoldable pub as_array : Value → Outcome E Values
  as_array (array vs) = ok vs
  as_array _ = panic

  unfoldable pub as_dict : Value → Outcome E Fields
  as_dict (dict fs) = ok fs
  as_dict _ = panic

  -- the version of a request, where it has one
  unfoldable pub version_of : Value → Outcome E Bytes
  unfolding as_text
  version_of nil = ok []
  version_of v = as_text v

  -- what is converted of the parameters of a request; the attachments with the path and the version of
  -- the service are overwritten
  unfoldable pub invocation_of : Package → Outcome E (Bytes × Invocation)
  unfolding version_of as_array as_dict
  invocation_of pkg = elim pkg.body [
    | request_body version args attachments ↦ do
      v ← version_of version
      vs ← as_array args
      fs ← as_dict attachments
      ok (v, record { attachments = fs; arguments = vs; method_name = pkg.method })
    | response_body r ↦ panic
    | other_body ↦ panic
  ]

  -- the result of a body that is a response, with the error of the response; `failure` is that of the
  -- package
  unfoldable pub result_of_body : Value → Body → Outcome E (RpcResult × Value)
  result_of_body failure (response_body r) = ok (
    record {
      failure = if is_nil failure then r.exception else failure;
      attrs = r.attachments;
      rest = r.rsp_obj;
    },
    if is_nil failure then r.exception else nil,
  )
  result_of_body failure (request_body v a fs) = panic
  result_of_body failure other_body = panic

module _ {E : Type 0} (flags : Flags)
    (unmarshal unmarshal_request : Bytes → Outcome E Package) where
  -- `decodeRequest`; `unmarshal_request` is `Unmarshal` behind `SetBody`
  unfoldable pub decode_request : Bytes → Outcome E (Request × ℕ)
  unfolding invocation_of
  decode_request frame = do
    pkg ← unmarshal_request frame
    let heartbeat = has_flag pkg.kind flags.heartbeat
    (version, invocation) ←
        if heartbeat then ok ([], none) else (invocation_of pkg >>= λ x. ok (x.0, some x.1))
    ok (
      record {
        id = pkg.id;
        serial_id = pkg.serial_id;
        two_way = has_flag pkg.kind flags.two_way;
        event = heartbeat;
        version = version;
        invocation = invocation;
      },
      flags.header_length + pkg.body_len,
    )

  -- `decodeResponse`, with the error that a heartbeat comes with, or nil
  unfoldable pub decode_response : Bytes → Outcome E (Response × ℕ × Value)
  unfolding result_of_body
  decode_response frame = do
    pkg ← unmarshal frame
    let heartbeat = has_flag pkg.kind flags.heartbeat
    let answered = has_flag pkg.kind flags.response
    let size = flags.header_length + pkg.body_len
    let blank : Response = record {
      id = pkg.id;
      serial_id = pkg.serial_id;
      status = pkg.response_status;
      event = heartbeat;
      failure = nil;
      result = none;
    }
    if heartbeat
        then (if answered
            then ok (blank, size, pkg.failure)
            else ok (record blank { status = flags.response_ok }, size, nil))
        else if has_flag pkg.kind flags.request
        then ok (
          record blank { result = some (record { failure = nil; attrs = no_fields; rest = nil }) },
          size,
          nil,
        )
        else (result_of_body pkg.failure pkg.body >>= λ x.
            ok (record blank { failure = x.1; result = some x.0 }, size, nil))

  -- `Decode`, with `false` for an error of the codec that is returned
  unfoldable pub decode : Bytes → Outcome E (Option DecodeResult)
  unfolding is_request decode_request decode_response
  decode frame = is_request frame >>= λ request.
      if request
      then (decode_request frame >>= λ x. ok (some (of_request x.0)))
      else (decode_response frame >>= λ x.
          if is_nil x.2 then ok (some (of_response x.0)) else ok none)

-- `DubboOutPutFile`, without the fields that the invocation leaves empty
pub record DubboRecord : Type 0 where
  pub id : ℤ
  pub version : Bytes
  pub serial_id : ℕ
  pub two_way : Bool
  pub event : Bool
  pub attachments : Fields
  pub method_name : Bytes
  pub arguments : Values
  pub is_request : Bool

-- The record of a request with its invocation: the type assertions of `AssembleDubboData` panic on a
-- response, and on a request without an invocation.
unfoldable pub record_of : {E : Type 0} → DecodeResult → Outcome E (Option DubboRecord)
record_of (of_response x) = panic
record_of (of_request x) = elim x.invocation [
  | none ↦ panic
  | some i ↦ ok (
      some (record {
        id = x.id;
        version = x.version;
        serial_id = x.serial_id;
        two_way = x.two_way;
        event = x.event;
        attachments = i.attachments;
        method_name = i.method_name;
        arguments = i.arguments;
        is_request = true;
      }))
]

-- `AssembleDubboData` behind `Decode`: none for the `false` that an error of the codec gives
unfoldable pub assembled :
    {E : Type 0} → Outcome E (Option DecodeResult) → Outcome E (Option DubboRecord)
unfolding record_of
assembled (ok none) = ok none
assembled (ok (some r)) = record_of r
assembled (err e) = ok none
assembled panic = panic
assembled loops = loops

unfoldable pub assemble_dubbo_data :
    {E : Type 0}
    → Flags
    → (Bytes → Outcome E Package)
    → (Bytes → Outcome E Package)
    → Bytes
    → Outcome E (Option DubboRecord)
unfolding decode assembled
assemble_dubbo_data flags unmarshal unmarshal_request frame =
    assembled (decode flags unmarshal unmarshal_request frame)
