-- ===== src/Jute/Sasl.antt =====
-- zookeeper.jute.c and zookeeper.jute.h. Tokens of the authentication layer.
pub mod Codec
use zkclient.Prelude.{some}
use zkclient.Outcome.{Step, ◌>>◌}
use zkclient.Host.{Host}
use zkclient.Archive.{BuffStruct, Buffer}
use zkclient.Archive.Input.{Load, ia_deserialize_buffer, ia_end_record, ia_start_record, on_field}
use zkclient.Archive.Output.{oa_end_record, oa_serialize_buffer, oa_start_record}

pub record GetSaslRequest : Type 0 where
  pub token : Buffer

unfoldable pub serialize_get_sasl_request : Host → GetSaslRequest → Step BuffStruct
serialize_get_sasl_request host v = do
  oa_start_record
  oa_serialize_buffer host (some v.token)
  oa_end_record

unfoldable pub deserialize_get_sasl_request : Host → Load GetSaslRequest
deserialize_get_sasl_request host = do
  ia_start_record
  on_field (λ v. v.token) (λ v x. record v { token = x }) (ia_deserialize_buffer host)
  ia_end_record

pub record SetSaslRequest : Type 0 where
  pub token : Buffer

unfoldable pub serialize_set_sasl_request : Host → SetSaslRequest → Step BuffStruct
serialize_set_sasl_request host v = do
  oa_start_record
  oa_serialize_buffer host (some v.token)
  oa_end_record

unfoldable pub deserialize_set_sasl_request : Host → Load SetSaslRequest
deserialize_set_sasl_request host = do
  ia_start_record
  on_field (λ v. v.token) (λ v x. record v { token = x }) (ia_deserialize_buffer host)
  ia_end_record

pub record SetSaslResponse : Type 0 where
  pub token : Buffer

unfoldable pub serialize_set_sasl_response : Host → SetSaslResponse → Step BuffStruct
serialize_set_sasl_response host v = do
  oa_start_record
  oa_serialize_buffer host (some v.token)
  oa_end_record

unfoldable pub deserialize_set_sasl_response : Host → Load SetSaslResponse
deserialize_set_sasl_response host = do
  ia_start_record
  on_field (λ v. v.token) (λ v x. record v { token = x }) (ia_deserialize_buffer host)
  ia_end_record
