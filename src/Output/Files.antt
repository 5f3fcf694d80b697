-- ===== src/Output/Files.antt =====
-- output/output_file.go and output/output_response_file.go: the files that requests and responses are
-- written to. The two outputs keep the same fields, and `FileOutput` stands for both.
pub mod Fresh
pub mod Written
pub mod Entries
pub mod ReadBack
use traffic.Base.Encoding.{ℤ, pos, negsuc}
use traffic.Base.Outcome.{Outcome, ok, err, panic, ◌>>=◌, at}
use traffic.Base.{
  ℕ, zero, suc, ◌+◌, ◌-◌, ◌^◌, Bool, true, false, not, ◌&&◌, ◌||◌, List, [], ◌∷◌, ◌++◌, Option,
  none, some, ltb, leb, ◌==◌, if◌then◌else◌, length,
}
use traffic.Http.Search.{Bytes, codes, equal, has_prefix, has_suffix}
use traffic.Payload.{payload_meta, payload_separator}
use traffic.Output.Names.{ext, trim_suffix, get_file_index, set_file_index}

-- `FileOutputConfig` without the interval of the flushes and the functions that are called at a close
pub record FileConfig : Type 0 where
  pub size_limit : ℤ
  pub queue_limit : ℤ
  pub append : Bool

-- An open file: its name, and whether its writer is a `gzip.Writer` and not a `bufio.Writer`.
pub record OpenFile : Type 0 where
  pub name : Bytes
  pub zipped : Bool

-- `FileOutput`. `contents` is what the files of the directory hold by their names, with what their
-- writers were handed and have not flushed, before it is zipped; counts of bytes are those of the memory,
-- below 2 ^ 63.
pub record FileOutput : Type 0 where
  pub path_template : Bytes
  pub current_name : Bytes
  pub file : Option OpenFile
  pub queue_length : ℕ
  pub request_per_file : Bool
  pub current_id : Bytes
  pub payload_type : Bytes
  pub closed : Bool
  pub current_file_size : ℕ
  pub total_file_size : ℕ
  pub config : FileConfig
  pub contents : Bytes → Bytes

-- What a call finds in the file system and on the clock. `date` gives what stands for a name like %Y,
-- `order` the names in the order in which the range over the map visits them; `sort` is `sort.Sort` by
-- `Less`, `clean` is `filepath.Clean`, and `stat` the size of the open file.
pub record World : Type 0 where
  pub date : Bytes → Bytes
  pub order : List Bytes
  pub glob : Bytes → Option (List Bytes)
  pub sort : List Bytes → List Bytes
  pub clean : Bytes → Bytes
  pub can_open : Bytes → Bool
  pub stat : Option ℕ

-- `strings.Replace(s, old, new, -1)` of an `old` that is not empty, behind `skip` bytes that belong to
-- the last one that was replaced
unfoldable pub replace_behind : ℕ → Bytes → Bytes → Bytes → Bytes
replace_behind skip old new [] = []
replace_behind (suc skip) old new (b ∷ s) = replace_behind skip old new s
replace_behind zero old new (b ∷ s) = elim (has_prefix (b ∷ s) old) [
  | true ↦ new ++ replace_behind (length old - 1) old new s
  | false ↦ b ∷ replace_behind 0 old new s
]

-- `limit > 0 && n >= limit`
unfoldable pub is_reached : ℕ → ℤ → Bool
is_reached n (pos limit) = ltb 0 limit && leb limit n
is_reached n (negsuc k) = false

-- `fileIndex++` of an int
unfoldable pub next_index : ℤ → ℤ
next_index (pos n) = if n + 1 == 2 ^ 63 then negsuc n else pos (n + 1)
next_index (negsuc zero) = pos 0
next_index (negsuc (suc n)) = negsuc n

-- `idx != -1`
unfoldable pub is_index : ℤ → Bool
is_index (negsuc zero) = false
is_index _ = true

unfoldable pub get_last : Bytes → List Bytes → Bytes
get_last s [] = s
get_last s (t ∷ ts) = get_last t ts

-- `nextChunk`
unfoldable pub chunk_due : FileOutput → Bool
unfolding is_reached
chunk_due o =
    length o.current_name == 0
    || (is_reached o.queue_length o.config.queue_limit
        || is_reached o.current_file_size o.config.size_limit)

-- the index of the next file, by the last one
unfoldable pub file_index : Bool → ℤ → ℤ
unfolding is_index next_index
file_index due idx = if is_index idx then (if due then next_index idx else idx) else pos 0

module _ (w : World) where
  -- `dateFileNameFuncs[name](o)`
  unfoldable pub date_file_name : FileOutput → Bytes → Bytes
  date_file_name o name =
      if equal name (codes "%r")
      then o.current_id
      else if equal name (codes "%t")
      then o.payload_type
      else w.date name

  -- the loop over the names
  unfoldable pub fill_in : FileOutput → List Bytes → Bytes → Bytes
  unfolding date_file_name replace_behind
  fill_in o [] path = path
  fill_in o (name ∷ names) path =
      fill_in o names (replace_behind 0 name (date_file_name o name) path)

  unfoldable pub file_pattern : Bytes → Bytes
  file_pattern path = trim_suffix path (ext path) ++ (b'*' ∷ ext path)

  -- the file that is chosen by those that there are
  unfoldable pub choose_file : Bool → Bytes → List Bytes → Bytes
  unfolding file_index get_last
  choose_file due path [] = set_file_index path (pos 0)
  choose_file due path (s ∷ ss) =
      let last = get_last s (w.sort (s ∷ ss)) in
      set_file_index last (file_index due (get_file_index last))

  -- `filename`
  unfoldable pub filename : FileOutput → Bytes
  unfolding fill_in file_pattern choose_file chunk_due
  filename o =
      let path = fill_in o w.order o.path_template in
      if o.config.append then path else elim (w.glob (file_pattern path)) [
        | none ↦ path
        | some matches ↦ choose_file (chunk_due o) path matches
      ]

  -- `updateName`
  unfoldable pub update_name : FileOutput → FileOutput
  unfolding filename
  update_name o = record o { current_name = w.clean (filename o) }

-- whether a writer is of the kind that is asked for
abbrev pub same_kind : Bool → Bool → Bool
same_kind true zipped = zipped
same_kind false zipped = not zipped

-- `strings.HasSuffix(o.currentName, ".gz")`
abbrev pub has_zip_name : FileOutput → Bool
has_zip_name o = has_suffix o.current_name (codes ".gz")

-- `closeLocked`. The writer is taken for one of the kind that the current name asks for, which is not that
-- of the open file if it has changed: the type assertion panics on a writer of the other kind.
unfoldable pub close_locked : {E : Type 0} → FileOutput → Outcome E FileOutput
close_locked o =
    let c : FileOutput = record o { closed = true; current_file_size = 0 } in
    elim o.file [
      | none ↦ ok c
      | some f ↦ if same_kind (has_zip_name o) f.zipped then ok c else panic
    ]

-- the contents of the files when one of them is set
unfoldable pub with_contents : (Bytes → Bytes) → Bytes → Bytes → Bytes → Bytes
with_contents contents name s k = if equal k name then s else contents k

-- What the process ends with in `log.Fatal`.
pub data FileError : Type 0 where
  cannot_open : Bytes → FileError

-- `o.file != nil && o.currentName == o.file.Name()`
unfoldable pub is_current : FileOutput → Bool
is_current o = elim o.file [ none ↦ false | some f ↦ equal o.current_name f.name ]

-- the file of the current name: the open one, or one that is opened by O_TRUNC, which empties it. The
-- open file is closed before; with `log.Fatal` the process ends, whatever is left of the file.
unfoldable pub reopen : World → FileOutput → Outcome FileError FileOutput
unfolding is_current close_locked with_contents
reopen w o =
    if is_current o
    then ok o
    else close_locked o >>= λ c.
        if w.can_open c.current_name
        then ok (record c {
          file = some (record { name = c.current_name; zipped = has_zip_name c });
          contents = with_contents c.contents c.current_name [];
          queue_length = 0;
        })
        else err (cannot_open c.current_name)

-- `BizProtocolType`
pub data Protocol : Type 0 where
  dubbo_protocol http_protocol other_protocol : Protocol

-- where the name of the file depends on the message
unfoldable pub note_message : FileOutput → Bytes → Outcome FileError FileOutput
note_message o meta = if not o.request_per_file then ok o else do
  id ← at (payload_meta meta) 1
  payload_type ← at (payload_meta meta) 0
  ok (record o { current_id = id; payload_type = payload_type })

-- `o.writer.Write`, of an open file
unfoldable pub write_bytes : Bytes → FileOutput → FileOutput
unfolding with_contents
write_bytes s o = elim o.file [
  | none ↦ o
  | some f ↦ record o { contents = with_contents o.contents f.name (o.contents f.name ++ s) }
]

-- `flush`, which recovers from the panic that a writer of the other kind gives
unfoldable pub flush : World → FileOutput → FileOutput
flush w o = elim o.file [
  | none ↦ o
  | some f ↦
      if same_kind (has_zip_name o) f.zipped
      then elim w.stat [ none ↦ o | some n ↦ record o { current_file_size = n } ]
      else o
]

-- one round of the goroutine of `NewFileOutput`; `none` is its end
unfoldable pub flush_round : World → FileOutput → Option FileOutput
unfolding update_name flush
flush_round w o = if o.closed then none else some (flush w (update_name w o))

-- What is recorded of a message of the Dubbo protocol: the JSON that `json.Marshal` gives of it, or
-- `none` for an error, and whether there is data.
module _ (protocol : Protocol) (dubbo_record : Bytes → Bytes → Option Bytes × Bool) where
  -- `Assemble`
  unfoldable pub assemble : Bytes → Bytes → Outcome FileError (Bytes × Bytes × Bool)
  assemble meta body = elim protocol [
    | dubbo_protocol ↦
        let (content, has_data) = dubbo_record meta body in
        elim content [ none ↦ ok ([], [], false) | some s ↦ ok (s, [], has_data) ]
    | http_protocol ↦ do
      payload_type ← at (payload_meta meta) 0
      ok (if equal payload_type (codes "1") then (meta, body, true) else ([], [], false))
    | other_protocol ↦ ok ([], [], false)
  ]

  -- `PluginWriter`, of the output of requests
  unfoldable pub plugin_writer :
      World → FileOutput → Bytes → Bytes → Outcome FileError (FileOutput × ℕ)
  unfolding update_name reopen assemble note_message write_bytes
  plugin_writer w o meta body = do
    a ← note_message o meta
    b ← reopen w (update_name w a)
    (head, content, flag) ← assemble meta body
    if not flag
        then ok (b, 0)
        else (let s = head ++ (content ++ payload_separator) in
            let n = length head + length content + length payload_separator in
            let c = write_bytes s b in
            ok (
              record c {
                total_file_size = c.total_file_size + n;
                current_file_size = c.current_file_size + n;
                queue_length = c.queue_length + 1;
              },
              n,
            ))

  -- `AssembleResponse`; `http_record` is the JSON of the record of a response, with its id, and
  -- whether there is data
  unfoldable pub assemble_response :
      (Bytes → Bytes → Bytes × Bool) → Bytes → Bytes → Outcome FileError (Bytes × Bool)
  assemble_response http_record meta body = elim protocol [
    | dubbo_protocol ↦
        let (content, has_data) = dubbo_record meta body in
        elim content [ none ↦ ok ([], false) | some s ↦ ok (s, has_data) ]
    | http_protocol ↦ do
      id ← at (payload_meta meta) 1
      payload_type ← at (payload_meta meta) 0
      ok (if equal payload_type (codes "2") then http_record id body else ([], false))
    | other_protocol ↦ ok ([], false)
  ]

  -- `PluginWriter`, of the output of responses
  unfoldable pub response_writer :
      (Bytes → Bytes → Bytes × Bool)
      → World
      → FileOutput
      → Bytes
      → Bytes
      → Outcome FileError (FileOutput × ℕ)
  unfolding update_name reopen assemble_response note_message write_bytes
  response_writer http_record w o meta body = do
    a ← note_message o meta
    b ← reopen w (update_name w a)
    (content, flag) ← assemble_response http_record meta body
    if not flag
        then ok (b, 0)
        else (let c = write_bytes (content ++ (b'\r' ∷ [])) b in
            ok (
              record c {
                current_file_size = c.current_file_size + length content;
                queue_length = c.queue_length + 1;
              },
              length content,
            ))
