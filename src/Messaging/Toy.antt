-- ===== src/Messaging/Toy.antt =====
-- A server that accepts every call, for the runs in Tests.
use finokit.Base.{
  true, ◌⊎◌, Bool, false, ◌==◌, ◌||◌, ℕ, List, [], ◌∷◌, ◌++◌, Option, none, some, Text, text,
  text_eq, text_eq_iff, Bool-cases, Option-cases, text_key, lookup, insert, lookup-insert, ok, err,
  Result, ◌≡◌, ◌≢◌, refl, arith, pos, inl, inr,
}
use finokit.Messaging.Nats.Server.{Server, StreamConfig, Added, added, in_use, Request}

pub record Toy : Type 0 where
  pub streams : List (Text × List Text)
  pub log : List Request
  pub ended : List ℕ

abbrev pub keep : {E : Type 0} → Toy → Option E × Toy
keep w = (none, w)

abbrev pub is_among : ℕ → List ℕ → Bool
is_among n [] = false
is_among n (m ∷ ms) = n == m || is_among n ms

abbrev pub opened : Toy → Result Text ℕ × Toy
opened w = (ok 7, w)

-- A new stream is added; one that exists is in use, whatever its subjects.
abbrev pub toy_add : Text → List Text → Toy → Added × Toy
toy_add n ss w = elim (lookup n w.streams) [
  | none ↦ (added, record w { streams = insert n ss w.streams })
  | some old ↦ (in_use, w)
]

abbrev pub toy_info : Text → Toy → Result Text (StreamConfig ℕ) × Toy
toy_info n w = elim (lookup n w.streams) [
  | none ↦ (err (text "not found"), w)
  | some old ↦ (ok (record { name = n; subjects = old; others = 0 }), w)
]

abbrev pub toy_update : StreamConfig ℕ → Toy → Option Text × Toy
toy_update c w = (none, record w { streams = insert c.name c.subjects w.streams })

abbrev pub toy_publish : Request → Toy → Option Text × Toy
toy_publish r w = (none, record w { log = w.log ++ r ∷ [] })

pub same_lem :
    (n : Text) (ss : List Text) (m : List (Text × List Text)) → lookup n (insert n ss m) ≡ some ss
same_lem n ss m = ground (arith, lookup-insert n n ss m, text_eq_iff n n)

pub other_lem :
    (n k : Text) (ss : List Text) (m : List (Text × List Text))
    → n ≢ k
    → lookup k (insert n ss m) ≡ lookup k m
other_lem n k ss m differ = elim (Bool-cases (text_eq n k)) [
  | inl same ↦ absurd (differ ((text_eq_iff n k).0 same))
  | inr apart ↦ ground (arith, lookup-insert n k ss m)
]

pub toy_add_sets :
    (n : Text) (ss : List Text) (w : Toy)
    → (toy_add n ss w).0 ≡ added
    → lookup n (toy_add n ss w).1.streams ≡ some ss
toy_add_sets n ss w h = elim (Option-cases (lookup n w.streams)) [
  | inl new ↦ ground (arith, same_lem n ss w.streams)
  | inr (old, used) ↦ absurd (ground arith)
]

pub toy_add_keeps :
    (n m : Text) (ss : List Text) (w : Toy)
    → n ≢ m
    → lookup m (toy_add n ss w).1.streams ≡ lookup m w.streams
toy_add_keeps n m ss w h = elim (Option-cases (lookup n w.streams)) [
  | inl new ↦ ground (arith, other_lem n m ss w.streams h)
  | inr (old, used) ↦ ground arith
]

pub toy_info_tells :
    (n : Text) (w : Toy) (c : StreamConfig ℕ)
    → (toy_info n w).0 ≡ ok c
    → (c.name ≡ n) × (lookup n w.streams ≡ some c.subjects)
toy_info_tells n w c h = elim (Option-cases (lookup n w.streams)) [
  | inl missing ↦ absurd (ground arith)
  | inr (old, found) ↦ (ground arith, ground arith)
]

pub toy_info_keeps : (n m : Text) (w : Toy) → lookup m (toy_info n w).1.streams ≡ lookup m w.streams
toy_info_keeps n m w = elim (Option-cases (lookup n w.streams)) [
  | inl missing ↦ ground arith
  | inr (old, found) ↦ ground arith
]

pub toy_publish_fails :
    (r : Request) (w : Toy) (e : Text)
    → (toy_publish r w).0 ≡ some e
    → ((toy_publish r w).1.log ≡ w.log) ⊎ ((toy_publish r w).1.log ≡ w.log ++ r ∷ [])
toy_publish_fails r w e h = inl cc

pub among_first : (n : ℕ) (ms : List ℕ) → is_among n (n ∷ ms) ≡ true
among_first n ms = ground arith

pub among_later : (n m : ℕ) (ms : List ℕ) → is_among n ms ≡ true → is_among n (m ∷ ms) ≡ true
among_later n m ms before = ground arith

abbrev pub toy : Server
toy = record {
  World = Toy;
  Sub = ℕ;
  Rest = ℕ;
  connect = λ url. ok (record { streams = []; log = []; ended = [] });
  jet_stream = λ w. none;
  disconnect = λ w. w;
  add_stream = toy_add;
  stream_info = toy_info;
  update_stream = toy_update;
  subjects_of = λ w n. lookup n w.streams;
  add_stream_sets = toy_add_sets;
  add_stream_keeps = toy_add_keeps;
  stream_info_tells = toy_info_tells;
  stream_info_keeps = toy_info_keeps;
  update_stream_sets = λ c w h. same_lem c.name c.subjects w.streams;
  update_stream_keeps = λ c m w h. other_lem c.name m c.subjects w.streams h;
  marshal = λ m. some m.payload;
  publish_core = toy_publish;
  publish_jet = toy_publish;
  sent = λ w. w.log;
  publish_core_sends = λ r w h. refl;
  publish_core_fails = toy_publish_fails;
  publish_jet_sends = λ r w h. refl;
  publish_jet_fails = toy_publish_fails;
  core_subscribe = λ t w. opened w;
  core_queue_subscribe = λ t g w. opened w;
  jet_subscribe = λ t w. opened w;
  jet_queue_subscribe = λ t g w. opened w;
  pull_subscribe = λ t d a b w. opened w;
  set_pending_limits = λ s a b w. keep w;
  unsubscribe = λ s w. (none, record w { ended = s ∷ w.ended });
  is_ended = λ w s. is_among s w.ended;
  unsubscribe_ends = λ s w went. among_first s w.ended;
  unsubscribe_keeps = λ s t w before. among_later t s w.ended before;
  disconnect_keeps = λ t w before. before;
  default_pending_msgs = pos 1;
  default_pending_bytes = pos 1;
}
