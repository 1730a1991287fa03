-- ===== src/Config/Reader/Encodings.antt =====
-- config/reader/options.go: the codecs of a reader by their formats.
use finokit.Base.{List, [], ◌∷◌, Text, text, text_key, insert}

module _ {A : Type 0} where
  -- `NewOptions` before its options, with the codecs of the packages json, xml and yaml.
  abbrev pub standard : A → A → A → List (Text × A)
  standard json xml yaml = (text "json", json) ∷ (text "xml", xml) ∷ (text "yaml", yaml) ∷ []

  -- `WithEncoder`, with the encoder's name.
  unfoldable pub with_encoder : Text × A → List (Text × A) → List (Text × A)
  unfolding insert
  with_encoder (name, e) encoding = insert name e encoding

  unfoldable pub apply_all : List (Text × A) → List (Text × A) → List (Text × A)
  unfolding with_encoder
  apply_all [] encoding = encoding
  apply_all (o ∷ opts) encoding = apply_all opts (with_encoder o encoding)

  unfoldable pub new_options : A → A → A → List (Text × A) → List (Text × A)
  unfolding apply_all
  new_options json xml yaml opts = apply_all opts (standard json xml yaml)
