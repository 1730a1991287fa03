-- ===== src/Config/Files/Suffixes.antt =====
-- Which files are found, against how the source reads them and how the reader decodes them.
use finokit.Base.{
  [], ◌∷◌, ◌++◌, true, Text, text, text_key, lookup, Result, ◌≡◌, refl, arith, Lacks,
}
use finokit.Config.Source.{ChangeSet}
use finokit.Config.Source.File.{format}
use finokit.Config.Source.File.Formats.{format-append}
use finokit.Config.Reader.{Codecs, decode}
use finokit.Config.Reader.Encodings.{new_options}
use finokit.Config.Files.{Paths, is_wanted}

formatted :
    (dir pre ext encoder : Text) → Lacks b'.' ext → format (dir ++ pre ++ b'.' ∷ ext) encoder ≡ ext
formatted dir pre ext encoder lacks = format-append (dir ++ pre) ext encoder lacks

upper_suffix-Lacks : Lacks b'.' (text "YAML")
upper_suffix-Lacks = (omega arith, (omega arith, (omega arith, (omega arith, tt))))

lower_suffix-Lacks : Lacks b'.' (text "yaml")
lower_suffix-Lacks = (omega arith, (omega arith, (omega arith, (omega arith, tt))))

module _ (p : Paths) {D : Type 0} (json xml yaml : Text → Result Text D) where
  -- The codecs of a reader without options.
  abbrev pub codecs_of : (D → Result Text Text) → (D → D → Result Text D) → D → Codecs D
  codecs_of encode override nothing = record {
    encoding = λ f. lookup f (new_options json xml yaml []);
    decode_json = json;
    encode_json = encode;
    override = override;
    nothing = nothing;
  }

  abbrev pub read_from : Text → Text → Text → ChangeSet → ChangeSet
  read_from encoder path content cs = record cs { content = content; format = format path encoder }

  -- Where DEPLOY_ENV is empty, and `filepath.Ext` gives the suffix: a file whose suffix is `.YAML` in
  -- capitals passes the test for the files to load, and a reader without options decodes its content
  -- as JSON, whereas it decodes that of a file with the suffix `.yaml` as YAML.
  pub capitals_are_json :
      (dir pre encoder content : Text) (cs : ChangeSet) (encode : D → Result Text Text)
      (override : D → D → Result Text D) (nothing : D)
      → p.ext (pre ++ text ".YAML") ≡ text ".YAML"
      → (is_wanted p [] (pre ++ text ".YAML") ≡ true)
        × (decode
              (codecs_of encode override nothing)
              (read_from encoder (dir ++ pre ++ text ".YAML") content cs)
            ≡ json content)
        × (decode
              (codecs_of encode override nothing)
              (read_from encoder (dir ++ pre ++ text ".yaml") content cs)
            ≡ yaml content)
  unfolding is_wanted decode new_options lookup
  capitals_are_json dir pre encoder content cs encode override nothing ext = (
    rw (is_wanted, ext) refl,
    rw (decode, formatted dir pre (text "YAML") encoder upper_suffix-Lacks) refl,
    rw (decode, formatted dir pre (text "yaml") encoder lower_suffix-Lacks) refl,
  )
