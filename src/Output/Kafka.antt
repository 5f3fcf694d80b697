-- ===== src/Output/Kafka.antt =====
-- output/kafka.go and output/output_kafka.go: the configuration of the client of Kafka, the text of a
-- message, and what the output sends. Reading certificates, the JSON of a record and the client itself are
-- arguments.
pub mod Dump
use traffic.Base.Outcome.{Outcome, ok, err}
use traffic.Base.{
  ℕ, Bool, true, false, not, ◌&&◌, ◌||◌, List, [], ◌∷◌, ◌++◌, Option, none, some, ◌==◌,
  if◌then◌else◌, length,
}
use traffic.Base.Encoding.{pos}
use traffic.Dubbo.{DubboRecord, no_fields, no_values}
use traffic.Input.{OutputMessage}
use traffic.Http.Search.{Bytes, codes, crlf}
use traffic.Payload.{split}

-- `KafkaTLSConfig`
pub record KafkaTlsConfig : Type 0 where
  pub ca_cert : Bytes
  pub client_cert : Bytes
  pub client_key : Bytes

pub data TlsError : Type 0 where
  missing_key missing_certificate not_loaded not_read : TlsError

-- what is set of `tls.Config`
pub record TlsConfig (C P : Type 0) : Type 0 where
  pub certificates : List C
  pub root_cas : Option P

module _ {C P : Type 0} (load : Bytes → Bytes → Option C) (read_pool : Bytes → Option P) where
  -- the part of `NewTLSConfig` that reads the certificates of authorities
  unfoldable pub with_pool : TlsConfig C P → Bytes → TlsConfig C P × Option TlsError
  with_pool config ca_cert =
      if length ca_cert == 0 then (config, none) else elim (read_pool ca_cert) [
        | none ↦ (config, some not_read)
        | some pool ↦ (record config { root_cas = some pool }, none)
      ]

  -- `NewTLSConfig`: the configuration is returned with an error, too
  unfoldable pub new_tls_config : Bytes → Bytes → Bytes → TlsConfig C P × Option TlsError
  unfolding with_pool
  new_tls_config cert key ca_cert =
      let blank : TlsConfig C P = record { certificates = []; root_cas = none } in
      if not (length cert == 0) && length key == 0
      then (blank, some missing_key)
      else if length cert == 0 && not (length key == 0)
      then (blank, some missing_certificate)
      else if not (length cert == 0) && not (length key == 0)
      then elim (load cert key) [
        | none ↦ (blank, some not_loaded)
        | some c ↦ with_pool (record blank { certificates = c ∷ [] }) ca_cert
      ]
      else with_pool blank ca_cert

  -- `NewKafkaConfig`: the configuration of TLS where it is enabled; `log.Fatal` is an error
  unfoldable pub new_kafka_config :
      Option KafkaTlsConfig → Outcome TlsError (Option (TlsConfig C P))
  unfolding new_tls_config
  new_kafka_config none = ok none
  new_kafka_config (some t) =
      if not (length t.client_cert == 0) || not (length t.ca_cert == 0)
      then (let (config, failed) = new_tls_config t.client_cert t.client_key t.ca_cert in
          elim failed [ none ↦ ok (some config) | some e ↦ err e ])
      else ok none

-- `KafkaMessage`; the headers are in the order in which the loop visits the map
pub record KafkaMessage : Type 0 where
  pub req_url : Bytes
  pub req_type : Bytes
  pub req_id : Bytes
  pub req_ts : Bytes
  pub req_method : Bytes
  pub req_body : Bytes
  pub req_headers : List (Bytes × Bytes)

-- the loop over the headers
unfoldable pub header_lines : List (Bytes × Bytes) → Bytes
header_lines [] = []
header_lines ((key, value) ∷ hs) =
    key ++ (b':' ∷ b' ' ∷ (value ++ (b'\r' ∷ b'\n' ∷ header_lines hs)))

-- the request behind the first line
unfoldable pub dump_request : KafkaMessage → Bytes
unfolding header_lines
dump_request m =
    m.req_method
    ++ (b' '
        ∷ (m.req_url
            ++ (b' '
                ∷ (codes "HTTP/1.1"
                    ++ (b'\r'
                        ∷ b'\n'
                        ∷ (header_lines m.req_headers ++ (b'\r' ∷ b'\n' ∷ m.req_body)))))))

-- `Dump`
unfoldable pub dump : KafkaMessage → Bytes
unfolding dump_request
dump m = m.req_type ++ (b' ' ∷ (m.req_id ++ (b' ' ∷ (m.req_ts ++ (b'\n' ∷ dump_request m)))))

-- the brokers of `NewKafkaOutput`
unfoldable pub broker_list : Bytes → List Bytes
broker_list host = split host b','

-- `message.DubboOutPutFile{}`
abbrev pub empty_record : DubboRecord
empty_record = record {
  id = pos 0;
  version = [];
  serial_id = 0;
  two_way = false;
  event = false;
  attachments = no_fields;
  method_name = [];
  arguments = no_values;
  is_request = false;
}

-- `PluginWriter`: the topic and the value that are sent, and the number that is returned. The record is
-- the empty one, whatever the message.
unfoldable pub plugin_writer : (DubboRecord → Bytes) → Bytes → OutputMessage → (Bytes × Bytes) × ℕ
plugin_writer marshal topic msg = let value = marshal empty_record in ((topic, value), length value)
