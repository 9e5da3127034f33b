-- ===== src/Config/Codec.antt =====
-- decodeMachineConfigDocs and encodeMachineConfigDocs of pkg/controller/talos_apply.go. The decoder
-- and the encoder of yaml.v3 are not part of the repository.
use cluster_api_provider_bri.Prelude.{String, Option, none, some, List, [], ◌∷◌, ◌++◌, ◌≡◌}
use cluster_api_provider_bri.Go.{Err, wrap}
use cluster_api_provider_bri.Go.Action.{Result, ok, err}
use cluster_api_provider_bri.Config.Document.{Fields}

-- A decoder is what its calls of Decode give up to io.EOF. An encoder is the documents that are
-- written to it: `encode written doc` is the error of Encode, and `close written` is that of Close,
-- or what the buffer then holds.
pub record YamlCodec : Type 0 where
  pub decode : String → List (Result Fields)
  pub encode : List Fields → Fields → Option Err
  pub close : List Fields → Result String

-- The calls of Decode that each give a document.
abbrev pub all_ok : List Fields → List (Result Fields)
all_ok [] = []
all_ok (doc ∷ docs) = ok doc ∷ all_ok docs

-- The documented behaviour of yaml.v3: what an encoder wrote is decoded to the same documents.
pub record YamlLaws (y : YamlCodec) : Type 0 where
  pub decode-close :
      (docs : List Fields) (config : String)
      → y.close docs ≡ ok config
      → y.decode config ≡ all_ok docs

-- An encoder writes every document that was decoded, and its buffer takes all of it.
pub record YamlWrites (y : YamlCodec) : Type 0 where
  pub encodes : (docs : List Fields) (doc : Fields) → y.encode docs doc ≡ none
  pub closes : (docs : List Fields) → (config : String) × (y.close docs ≡ ok config)

-- The loop of decodeMachineConfigDocs; `docs` is what it has so far.
unfoldable pub decode_from : List Fields → List (Result Fields) → Result (List Fields)
decode_from docs [] = ok docs
decode_from docs (ok doc ∷ l) = decode_from (docs ++ doc ∷ []) l
decode_from docs (err e ∷ l) = err (wrap "failed to parse machine config" e)

abbrev pub flush : Result String → Result String
flush (ok config) = ok config
flush (err e) = err (wrap "failed to flush machine config" e)

abbrev pub or_encode_error : Result String → Option Err → Result String
or_encode_error rest none = rest
or_encode_error rest (some e) = err (wrap "failed to serialize machine config" e)

module _ (y : YamlCodec) where
  unfoldable pub decode_machine_config_docs : String → Result (List Fields)
  unfolding decode_from
  decode_machine_config_docs config = decode_from [] (y.decode config)

  -- The loop of encodeMachineConfigDocs, and Close; `written` is what the encoder has so far.
  unfoldable pub encode_from : List Fields → List Fields → Result String
  encode_from written [] = flush (y.close written)
  encode_from written (doc ∷ docs) =
      or_encode_error (encode_from (written ++ doc ∷ []) docs) (y.encode written doc)

  unfoldable pub encode_machine_config_docs : List Fields → Result String
  unfolding encode_from
  encode_machine_config_docs docs = encode_from [] docs
