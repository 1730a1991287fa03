-- ===== src/Config/Source/Nats.antt =====
-- config/source/nats/: a key of a NATS bucket as a source, with its watcher. The bucket, the hash and
-- `net.SplitHostPort` are arguments. The watcher's goroutine and its callers share two channels, so
-- what they do is a list of moves.
pub mod Handing
mod Tests
use finokit.Base.{
  List, [], ◌∷◌, ◌++◌, Option, none, some, Bool, true, false, Text, text, is_empty, join, Result,
  ◌>>=◌, ok, err, ℤ, if◌then◌else◌,
}
use finokit.Config.Source.{ChangeSet, summed}

pub data Error : Type 0 where
  source_not_found : Text → Error
  outside : Text → Error

-- What a bucket says of a key: its value, that it is not there, or another error.
pub data Found : Type 0 where
  value : Text → Found
  key_not_found : Found
  failed : Text → Found

-- `Read`; a key that is not there is no error, and gives no change set.
unfoldable pub read :
    (Text → Text) → (Text → Found) → Text → Text → ℤ → Result Error (Option ChangeSet)
unfolding summed
read hash get key encoder now = elim (get key) [
  | key_not_found ↦ ok none
  | failed e ↦ err (outside e)
  | value v ↦
      if is_empty v
      then err (source_not_found key)
      else ok (
          some (
            summed hash (record {
              content = v;
              checksum = [];
              format = encoder;
              source = text "nats";
              timestamp = now;
            })))
]

-- `Write`, over a bucket B.
unfoldable pub write :
    {B : Type 0} → (Text → Text → B → Option Text × B) → Text → ChangeSet → B → Option Error × B
write put key cs bucket =
    let (e, bucket') = put key cs.content bucket in
    (elim e [ none ↦ none | some x ↦ some (outside x) ], bucket')

-- How a URL is split: into an address and a port, or not, for lack of a port or otherwise.
pub data Split : Type 0 where
  parts : Text → Text → Split
  missing_port other_error : Split

-- The loop of `NewSource` over the URLs; what cannot be split leaves both parts empty.
unfoldable pub endpoints_from : (Text → Split) → List Text → List Text
endpoints_from split_host_port [] = []
endpoints_from split_host_port (u ∷ us) =
    elim (split_host_port u) [
      | parts addr port ↦ addr ++ text ":" ++ port
      | missing_port ↦ u ++ text ":" ++ text "4222"
      | other_error ↦ text ":"
    ]
    ∷ endpoints_from split_host_port us

-- The URL that `NewSource` connects to; the URLs are none where the context has none.
unfoldable pub url_of : (Text → Split) → Option (List Text) → Text
unfolding endpoints_from join
url_of split_host_port urls =
    let endpoints : List Text = elim urls [
      | none ↦ []
      | some us ↦ endpoints_from split_host_port us
    ] in
    join (if is_empty endpoints then text "127.0.0.1:4222" ∷ [] else endpoints) (text ",")

-- How `NewSource` ends: with the key-value store that its source keeps, none where that is nil, or in a
-- panic, since it goes on with a nil JetStream context.
pub data Started (K : Type 0) : Type 0 where
  started : Option K → Started K
  panicked : Started K

-- What JetStream says of a bucket: its store, that it is not there, or another error.
pub data Bucket (K : Type 0) : Type 0 where
  store : K → Bucket K
  bucket_not_found failed_ : Bucket K

-- `NewSource` from the connection on: its errors are logged only. A connection that is refused is nil.
unfoldable pub new_source :
    {C J K : Type 0}
    → (Text → Option C)
    → (Option C → Option J)
    → (J → Text → Bucket K)
    → (J → Text → Option K)
    → Text
    → Text
    → Started K
new_source connect jet_stream key_value create url bucket = elim (jet_stream (connect url)) [
  | none ↦ panicked
  | some js ↦ elim (key_value js bucket) [
    | store kv ↦ started (some kv)
    | bucket_not_found ↦ started (create js bucket)
    | failed_ ↦ started none
  ]
]

-- `Client`
unfoldable pub client :
    {C J : Type 0} → (Text → Result Text C) → (C → Result Text J) → Text → Result Text J
client connect jet_stream url = do nc ← connect url; jet_stream nc

-- Where the goroutine stands: at its select, in `handle` with a change set to hand over, or ended.
pub data Loop : Type 0 where
  selecting ended : Loop
  handing : ChangeSet → Loop

pub record Watcher : Type 0 where
  -- the updates of the bucket's watcher that were not taken; one of none is nil
  pub incoming : List (Option Text)
  pub loop : Loop
  pub exited : Bool
  -- the bucket's watcher was stopped
  pub unwatched : Bool
  -- what the calls of `Next` returned
  pub returned : List ChangeSet

-- The bucket tells of an update; the goroutine takes one, or leaves its loop; a call of `Next` takes
-- what is handed over (one that finds the watcher stopped changes nothing); a call of `Stop`.
pub data Move : Type 0 where
  tells : Option Text → Move
  takes : ℤ → Move
  leaves nexts stops : Move

module _ (hash : Text → Text) (name encoder : Text) where
  -- The change set of `handle`.
  unfoldable pub handled : ℤ → Text → ChangeSet
  unfolding summed
  handled now v =
      summed hash
        (record { content = v; checksum = []; format = encoder; source = name; timestamp = now })

  abbrev pub stop : Watcher → Watcher
  stop w = record w { exited = true }

  -- `Next`, as far as it takes what is handed over.
  abbrev pub next : Watcher → Watcher
  next w = elim w.loop [
    | selecting ↦ w
    | ended ↦ w
    | handing c ↦ record w { loop = selecting; returned = w.returned ++ c ∷ [] }
  ]

  -- A move that is not possible in a state leaves it as it is.
  unfoldable pub move : Move → Watcher → Watcher
  unfolding handled
  move (tells v) w = record w { incoming = w.incoming ++ v ∷ [] }
  move (takes now) w = elim w.loop [
    | handing c ↦ w
    | ended ↦ w
    | selecting ↦ elim w.incoming [
      | [] ↦ w
      | u ∷ us ↦ elim u [
        | none ↦ record w { incoming = us }
        | some v ↦ record w { incoming = us; loop = handing (handled now v) }
      ]
    ]
  ]
  move leaves w = elim w.loop [
    | handing c ↦ w
    | ended ↦ w
    | selecting ↦ if w.exited then record w { loop = ended; unwatched = true } else w
  ]
  move nexts w = next w
  move stops w = stop w

  unfoldable pub moves : List Move → Watcher → Watcher
  unfolding move
  moves [] w = w
  moves (m ∷ ms) w = moves ms (move m w)

abbrev pub new_watcher : Watcher
new_watcher = record {
  incoming = [];
  loop = selecting;
  exited = false;
  unwatched = false;
  returned = [];
}
