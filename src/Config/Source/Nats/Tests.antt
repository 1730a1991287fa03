-- ===== src/Config/Source/Nats/Tests.antt =====
-- Runs of the NATS source's watcher, with a hash that gives the text itself.
use finokit.Base.{
  if◌then◌else◌, List, [], ◌∷◌, none, some, false, Text, text, pos, ◌≡◌, refl, is_empty,
}
use finokit.Config.Source.{ChangeSet}
use finokit.Config.Source.Nats.{
  handing, Watcher, Move, tells, takes, leaves, nexts, stops, moves, new_watcher, Split, parts,
  missing_port, url_of,
}
use finokit.Config.Source.Nats.Handing.{contents, told, passed, moves-passed, held_is_stuck}

abbrev hash : Text → Text
hash t = t

abbrev story : List Move
story =
    tells none
    ∷ tells (some (text "{}"))
    ∷ takes (pos 1)
    ∷ tells (some (text "[]"))
    ∷ takes (pos 2)
    ∷ nexts
    ∷ takes (pos 3)
    ∷ takes (pos 4)
    ∷ []

moves-passed_example :
    passed (moves hash (text "nats") (text "json") story new_watcher) ≡ told story
moves-passed_example = moves-passed hash (text "nats") (text "json") story

returned_one :
    contents ((moves hash (text "nats") (text "json") story new_watcher).returned) ≡ text "{}" ∷ []
unfolding moves
returned_one = refl

-- An update that was taken, and no call of `Next` for it.
abbrev held : ChangeSet
held = record {
  content = text "{}";
  checksum = text "{}";
  format = text "json";
  source = text "nats";
  timestamp = pos 1;
}

abbrev holding : Watcher
holding = record {
  incoming = [];
  loop = handing held;
  exited = false;
  unwatched = false;
  returned = [];
}

held_is_stuck_example :
    ((moves hash
        (text "nats")
        (text "json")
        (stops ∷ leaves ∷ takes (pos 2) ∷ leaves ∷ [])
        holding).loop
      ≡ handing held)
    × ((moves hash
          (text "nats")
          (text "json")
          (stops ∷ leaves ∷ takes (pos 2) ∷ leaves ∷ [])
          holding).unwatched
        ≡ false)
held_is_stuck_example =
    held_is_stuck hash (text "nats") (text "json") (stops ∷ leaves ∷ takes (pos 2) ∷ leaves ∷ [])
      holding held refl refl

abbrev split : Text → Split
split u = if is_empty u then missing_port else parts u (text "1")

two_endpoints : url_of split (some (text "a" ∷ text "" ∷ [])) ≡ text "a:1,:4222"
unfolding url_of
two_endpoints = refl

holding_is_reached :
    moves hash
      (text "nats")
      (text "json")
      (tells (some (text "{}")) ∷ takes (pos 1) ∷ [])
      new_watcher
    ≡ holding
unfolding moves
holding_is_reached = refl
