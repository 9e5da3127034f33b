-- ===== src/Config/RoundTrip.antt =====
-- The loops around yaml.v3 give back what they wrote, and what follows for an edit of a
-- configuration (pkg/controller/talos_apply.go).
use mathlib.Core.List.{append_assoc, append-nil}
use cluster_api_provider_bri.Prelude.{
  String, Option, none, some, List, [], ◌∷◌, ◌++◌, ◌≡◌, ◌∙◌, refl, sym, ap,
}
use cluster_api_provider_bri.Go.{Err}
use cluster_api_provider_bri.Go.Action.{Result, ok, err}
use cluster_api_provider_bri.Config.{edit}
use cluster_api_provider_bri.Config.Codec.{
  YamlCodec, YamlLaws, all_ok, decode_from, decode_machine_config_docs, encode_from,
  encode_machine_config_docs, flush, or_encode_error,
}
use cluster_api_provider_bri.Config.Document.{Fields}

decode_from-all_ok : (acc docs : List Fields) → decode_from acc (all_ok docs) ≡ ok (acc ++ docs)
unfolding decode_from
decode_from-all_ok acc [] = ap ok (sym (append-nil acc))
decode_from-all_ok acc (doc ∷ docs) =
    decode_from-all_ok (acc ++ doc ∷ []) docs ∙ ap ok (append_assoc acc (doc ∷ []) docs)

flush_inverse : (r : Result String) (config : String) → flush r ≡ ok config → r ≡ ok config
flush_inverse (ok c) config e = e
flush_inverse (err x) config e = cc

or_error_inverse :
    (r : Result String) (o : Option Err) (config : String)
    → or_encode_error r o ≡ ok config
    → r ≡ ok config
or_error_inverse r none config e = e
or_error_inverse r (some x) config e = cc

module _ (y : YamlCodec) where
  encode_from-close :
      (written docs : List Fields) (config : String)
      → encode_from y written docs ≡ ok config
      → y.close (written ++ docs) ≡ ok config
  unfolding encode_from
  encode_from-close written [] config e =
      rw (append-nil written) (flush_inverse (y.close written) config e)
  encode_from-close written (doc ∷ docs) config e =
      let rest =
        or_error_inverse (encode_from y (written ++ doc ∷ []) docs) (y.encode written doc) config
          e in
      ap y.close (sym (append_assoc written (doc ∷ []) docs))
      ∙ encode_from-close (written ++ doc ∷ []) docs config rest

  module _ (laws : YamlLaws y) where
    -- A configuration that encodeMachineConfigDocs returns decodes to the documents that it got.
    pub decode-encode :
        (docs : List Fields) (config : String)
        → encode_machine_config_docs y docs ≡ ok config
        → decode_machine_config_docs y config ≡ ok docs
    unfolding encode_machine_config_docs decode_machine_config_docs
    decode-encode docs config e =
        ap (decode_from []) (laws.decode-close docs config (encode_from-close [] docs config e))
        ∙ decode_from-all_ok [] docs

    -- An edit that succeeds decodes its configuration, and its result decodes to the edited ones.
    pub decode-edit :
        (f : List Fields → List Fields) (r : Result (List Fields)) (config : String)
        → edit y f r ≡ ok config
        → (docs : List Fields) × (r ≡ ok docs) × (decode_machine_config_docs y config ≡ ok (f docs))
    decode-edit f (ok docs) config e = (docs, refl, decode-encode (f docs) config e)
    decode-edit f (err x) config e = cc
