-- ===== src/Tests/Sending.antt =====
-- Runs of the texts of messages to Kafka.
use traffic.Base.Outcome.{ok}
use traffic.Base.{[], ◌∷◌, ◌≡◌, refl, arith}
use traffic.Http.Header.{header_value}
use traffic.Http.Path.{path}
use traffic.Http.Search.{codes, equal_fold, has_prefix, mime_headers_start_pos}
use traffic.Http.Title.{has_title, has_request_title}
use traffic.Output.Kafka.{KafkaMessage, dump, dump_request, header_lines}
use traffic.Output.Kafka.Dump.{header_value-dump, title}
use traffic.Packet.{HdrError}
use traffic.Payload.{payload_meta, payload_body, index_byte}

abbrev message : KafkaMessage
message = record {
  req_url = codes "/a";
  req_type = codes "1";
  req_id = codes "f0";
  req_ts = codes "7";
  req_method = codes "GET";
  req_body = [];
  req_headers = (codes "Host", codes "b") ∷ (codes "X-Id", codes "42") ∷ [];
}

header_value-dump_example :
    (payload_meta (dump message) ≡ message.req_type ∷ message.req_id ∷ message.req_ts ∷ [])
    × (path {E = HdrError} (payload_body (dump message)) ≡ ok message.req_url)
    × (header_value {E = HdrError} (payload_body (dump message)) (codes "x-id") ≡ ok (codes "42"))
unfolding dump_request header_lines title has_request_title has_title has_prefix index_byte
    mime_headers_start_pos equal_fold
header_value-dump_example =
    header_value-dump message ((codes "Host", codes "b") ∷ []) [] (codes "x-id") (codes "X-Id")
      (codes "42")
      (record {
        type_word = (omega arith, tt);
        id_word = (omega arith, (omega arith, tt));
        ts_word = (omega arith, tt);
        type_line = (omega arith, tt);
        id_line = (omega arith, (omega arith, tt));
        ts_line = (omega arith, tt);
      })
      (record {
        method_word = (omega arith, (omega arith, (omega arith, tt)));
        url_word = (omega arith, (omega arith, tt));
        is_title = refl;
        headers_behind = refl;
      })
      refl
      (
        (
          (
            omega arith,
            (
              omega arith,
              (
                omega arith,
                (omega arith, (omega arith, (omega arith, (omega arith, (omega arith, tt))))),
              ),
            ),
          ),
          refl,
        ),
        tt,
      )
      (record {
        one_line = (omega arith, (omega arith, (omega arith, (omega arith, tt))));
        no_colon = (omega arith, (omega arith, (omega arith, (omega arith, tt))));
        same_name = refl;
      })
      (omega arith, (omega arith, tt))
      (record { not_empty = omega arith; first_visible = omega arith; last_visible = omega arith })
