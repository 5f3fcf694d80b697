-- ===== src/Plugins/Limits.antt =====
-- plugins.go: which plugins take part in the copying: those that were asked for without a limit.
use traffic.Base.{
  Bool, true, false, not, ◌&&◌, List, [], ◌∷◌, ◌++◌, append_assoc, append-nil, map, ◌≡◌, refl, sym,
  ap, ◌∙◌, inl, inr, ◌==◌, if◌then◌else◌, length, Bool-cases,
}
use traffic.Http.Search.{Bytes}
use traffic.Payload.{split}
use traffic.Plugins.{extract_limit_options}
use traffic.Plugins.Registry.{
  Kind, Plugin, plugin, limiter, tcp_input, dubbo_input, http_input, file_input, std_output,
  file_output, file_response_output, tcp_output, kafka_output, kind_reads, is_reader, is_writer,
  InOutPlugins, add_plugin, constructed, register_plugin, register_each, PluginSettings,
  init_plugins,
}

-- The paths of the options that set no limit.
unfoldable pub unlimited : List Bytes → List Bytes
unlimited [] = []
unlimited (o ∷ os) =
    if length (extract_limit_options o).1 == 0
    then (extract_limit_options o).0 ∷ unlimited os
    else unlimited os

-- The plugins of one kind that can be copied from or to.
unfoldable pub plain : Kind → List Bytes → List Plugin
unfolding unlimited
plain kind os = map (plugin kind) (unlimited os)

-- What becomes of the plugins when those of one kind are added.
record IsJoined (kind : Kind) (more : List Plugin) (a b : InOutPlugins) : Type 0 where
  inputs : b.inputs ≡ a.inputs ++ (if kind_reads kind then more else [])
  outputs : b.outputs ≡ a.outputs ++ (if kind_reads kind then [] else more)

add_plain :
    (kind : Kind) (path : Bytes) (a : InOutPlugins)
    → IsJoined kind (plugin kind path ∷ []) a (add_plugin a (plugin kind path))
unfolding add_plugin is_reader is_writer
add_plain kind path a = elim (Bool-cases (kind_reads kind)) [
  | inl e ↦ record { inputs = rw e refl; outputs = rw e (sym (append-nil a.outputs)) }
  | inr e ↦ record { inputs = rw e (sym (append-nil a.inputs)); outputs = rw e refl }
]

if_nil : {A : Type 0} (b : Bool) → (if◌then◌else◌ {A = List A} b [] []) ≡ []
if_nil true = refl
if_nil false = refl

add_limited :
    (kind : Kind) (p : Plugin) (limit : Bytes) (a : InOutPlugins)
    → IsJoined kind [] a (add_plugin a (limiter p limit))
unfolding add_plugin is_reader is_writer
add_limited kind p limit a = record {
  inputs = sym (ap (◌++◌ a.inputs) (if_nil (kind_reads kind)) ∙ append-nil a.inputs);
  outputs = sym (ap (◌++◌ a.outputs) (if_nil (kind_reads kind)) ∙ append-nil a.outputs);
}

if_append :
    {A : Type 0} (b : Bool) (xs ys : List A)
    → (if b then xs else []) ++ (if b then ys else []) ≡ (if b then xs ++ ys else [])
if_append true xs ys = refl
if_append false xs ys = refl

if_not_append :
    {A : Type 0} (b : Bool) (xs ys : List A)
    → (if b then [] else xs) ++ (if b then [] else ys) ≡ (if b then [] else xs ++ ys)
if_not_append true xs ys = refl
if_not_append false xs ys = refl

IsJoined-trans :
    (kind : Kind) (xs ys : List Plugin) (a b c : InOutPlugins)
    → IsJoined kind xs a b
    → IsJoined kind ys b c
    → IsJoined kind (xs ++ ys) a c
IsJoined-trans kind xs ys a b c h k = record {
  inputs =
      k.inputs
      ∙ rw h.inputs (append_assoc a.inputs _ _)
      ∙ ap (◌++◌ a.inputs) (if_append (kind_reads kind) xs ys);
  outputs =
      k.outputs
      ∙ rw h.outputs (append_assoc a.outputs _ _)
      ∙ ap (◌++◌ a.outputs) (if_not_append (kind_reads kind) xs ys);
}

register_each-plain :
    (kind : Kind) (os : List Bytes) (a : InOutPlugins)
    → IsJoined kind (plain kind os) a (register_each kind os a)
unfolding register_each register_plugin constructed plain unlimited
register_each-plain kind [] a = record {
  inputs = sym (ap (◌++◌ a.inputs) (if_nil (kind_reads kind)) ∙ append-nil a.inputs);
  outputs = sym (ap (◌++◌ a.outputs) (if_nil (kind_reads kind)) ∙ append-nil a.outputs);
}
register_each-plain kind (o ∷ os) a = elim (Bool-cases (length (extract_limit_options o).1 == 0)) [
  | inl e ↦ rw e (
      IsJoined-trans kind (plugin kind (extract_limit_options o).0 ∷ []) (plain kind os) a _ _
        (add_plain kind (extract_limit_options o).0 a) (register_each-plain kind os _))
  | inr e ↦ rw e (
      IsJoined-trans kind [] (plain kind os) a _ _
        (add_limited kind (plugin kind (extract_limit_options o).0) (extract_limit_options o).1 a)
        (register_each-plain kind os _))
]

-- The plugins of kinds that are read come behind the inputs.
read_each :
    (kind : Kind) (os : List Bytes) (a : InOutPlugins)
    → kind_reads kind ≡ true
    → ((register_each kind os a).inputs ≡ a.inputs ++ plain kind os)
      × ((register_each kind os a).outputs ≡ a.outputs)
read_each kind os a h =
    let j = register_each-plain kind os a in
    (j.inputs ∙ rw h refl, j.outputs ∙ rw h (append-nil a.outputs))

written_each :
    (kind : Kind) (os : List Bytes) (a : InOutPlugins)
    → kind_reads kind ≡ false
    → ((register_each kind os a).inputs ≡ a.inputs)
      × ((register_each kind os a).outputs ≡ a.outputs ++ plain kind os)
written_each kind os a h =
    let j = register_each-plain kind os a in
    (j.inputs ∙ rw h (append-nil a.inputs), j.outputs ∙ rw h refl)

abbrev when : Bool → Plugin → List Plugin
when b p = if b then p ∷ [] else []

written_when :
    (b : Bool) (kind : Kind) (a : InOutPlugins)
    → kind_reads kind ≡ false
    → let c = if b then add_plugin a (plugin kind []) else a in
      (c.inputs ≡ a.inputs) × (c.outputs ≡ a.outputs ++ when b (plugin kind []))
written_when true kind a h =
    let j = add_plain kind [] a in (j.inputs ∙ rw h (append-nil a.inputs), j.outputs ∙ rw h refl)
written_when false kind a h = (refl, sym (append-nil a.outputs))

-- whether the settings name a topic and a host of Kafka
abbrev pub has_kafka : PluginSettings → Bool
has_kafka s = not (length s.kafka_topic == 0) && not (length s.kafka_host == 0)

-- What the settings ask to read from without a limit, and to write to.
unfoldable pub readable : PluginSettings → List Plugin
unfolding plain
readable s =
    plain tcp_input s.input_tcp
    ++ (plain dubbo_input s.input_dubbo
        ++ (plain http_input s.input_http ++ plain file_input s.input_file))

unfoldable pub writable : PluginSettings → List Plugin
unfolding plain
writable s =
    when s.output_stdout (plugin std_output [])
    ++ (plain file_output s.output_file
        ++ (plain file_response_output s.output_response_file
            ++ (plain tcp_output s.output_tcp ++ when (has_kafka s) (plugin kafka_output []))))

-- The inputs and the outputs of the program are those that the settings ask for without a limit, in
-- the order of their kinds: what is given with a limit is neither copied from nor copied to.
pub init_plugins-plain :
    (s : PluginSettings)
    → ((init_plugins s).inputs ≡ readable s) × ((init_plugins s).outputs ≡ writable s)
unfolding readable writable init_plugins register_plugin kind_reads constructed
    extract_limit_options split
init_plugins-plain s =
    let a : InOutPlugins = record { inputs = []; outputs = []; every = [] } in
    let b = register_each tcp_input s.input_tcp a in
    let c = register_each dubbo_input s.input_dubbo b in
    let d = register_each http_input s.input_http c in
    let e = register_each file_input s.input_file d in
    let f = if s.output_stdout then add_plugin e (plugin std_output []) else e in
    let g = register_each file_output s.output_file f in
    let h = register_each file_response_output s.output_response_file g in
    let i = register_each tcp_output s.output_tcp h in
    let (b0, b1) = read_each tcp_input s.input_tcp a refl in
    let (c0, c1) = read_each dubbo_input s.input_dubbo b refl in
    let (d0, d1) = read_each http_input s.input_http c refl in
    let (e0, e1) = read_each file_input s.input_file d refl in
    let (f0, f1) = written_when s.output_stdout std_output e refl in
    let (g0, g1) = written_each file_output s.output_file f refl in
    let (h0, h1) = written_each file_response_output s.output_response_file g refl in
    let (i0, i1) = written_each tcp_output s.output_tcp h refl in
    let (j0, j1) = written_when (has_kafka s) kafka_output i refl in
    (
      j0 ∙ i0 ∙ h0 ∙ g0 ∙ f0 ∙ e0 ∙ rw (d0, c0, b0) (simp append_assoc),
      j1 ∙ rw (i1, h1, g1, f1, e1, d1, c1, b1) (simp append_assoc),
    )
