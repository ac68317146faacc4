-- ===== src/Jute/Receiving.antt =====
-- zookeeper.jute.c over recordio.c: reading a reply from whatever bytes a server sent.
use zkclient.Host.{Host}
use zkclient.Archive.{BuffStruct}
use zkclient.Archive.Safety.{GrantsVectors, IsInput, IsUsable, Returned}
use zkclient.Jute.Header.{ReplyHeader, deserialize_reply_header}
use zkclient.Jute.Header.Codec.{deserialize_reply_header-Safe}
use zkclient.Jute.Connect.{ConnectResponse, deserialize_connect_response}
use zkclient.Jute.Connect.Codec.{deserialize_connect_response-Safe}
use zkclient.Jute.Data.{GetDataResponse, deserialize_get_data_response}
use zkclient.Jute.Data.Codec.{deserialize_get_data_response-Safe}
use zkclient.Jute.Children.{GetChildrenResponse, deserialize_get_children_response}
use zkclient.Jute.Children.Codec.{deserialize_get_children_response-Safe}
use zkclient.Jute.Txn.{
  MultiTxn, TxnVector, deserialize_multi_txn, deserialize_txn_vector, deserialize_txn,
}
use zkclient.Jute.Vector.Safety.{Unbacked, deserialize_vector-Settled}
use zkclient.Prelude.{◌⊎◌, ◌==◌, inl, inr, refl, ap, ◌∙◌, Bool-cases}
use zkclient.Outcome.{◌>>◌, skip, proceed, Outcome}
use zkclient.Archive.Input.{ia_start_record, ia_end_record, on_field}
use zkclient.Jute.Txn.Codec.{deserialize_txn-Safe}

-- Over an input archive of any bytes, well formed or not, and any old contents of the variable,
-- `deserialize_ReplyHeader` returns: it reads no byte outside the archive and leaves an archive over the same
-- bytes, its offset not moved back. The allocator is one that refuses more than the
-- largest object size.
pub deserialize_reply_header-Returned :
    (host : Host) (v : ReplyHeader) (priv : BuffStruct)
    → IsUsable host
    → IsInput priv
    → Returned priv (deserialize_reply_header host (v, priv))
deserialize_reply_header-Returned host v priv k w =
    (deserialize_reply_header-Safe host k).run v priv w

-- Over an input archive of any bytes, well formed or not, and any old contents of the variable,
-- `deserialize_ConnectResponse` returns: it reads no byte outside the archive and leaves an archive over the same
-- bytes, its offset not moved back. The allocator is one that refuses more than the
-- largest object size.
pub deserialize_connect_response-Returned :
    (host : Host) (v : ConnectResponse) (priv : BuffStruct)
    → IsUsable host
    → IsInput priv
    → Returned priv (deserialize_connect_response host (v, priv))
deserialize_connect_response-Returned host v priv k w =
    (deserialize_connect_response-Safe host k).run v priv w

-- Over an input archive of any bytes, well formed or not, and any old contents of the variable,
-- `deserialize_GetDataResponse` returns: it reads no byte outside the archive and leaves an archive over the same
-- bytes, its offset not moved back. The allocator is one that refuses more than the
-- largest object size.
pub deserialize_get_data_response-Returned :
    (host : Host) (v : GetDataResponse) (priv : BuffStruct)
    → IsUsable host
    → IsInput priv
    → Returned priv (deserialize_get_data_response host (v, priv))
deserialize_get_data_response-Returned host v priv k w =
    (deserialize_get_data_response-Safe host k).run v priv w

-- Over an input archive of any bytes, well formed or not, and any old contents of the variable,
-- `deserialize_GetChildrenResponse` returns: it reads no byte outside the archive and leaves an archive
-- over the same bytes, its offset not moved back. The allocator refuses more than the largest object
-- size, and grants what the vector takes.
pub deserialize_get_children_response-Returned :
    (host : Host) (v : GetChildrenResponse) (priv : BuffStruct)
    → IsUsable host
    → GrantsVectors host
    → IsInput priv
    → Returned priv (deserialize_get_children_response host (v, priv))
deserialize_get_children_response-Returned host v priv k room w =
    (deserialize_get_children_response-Safe host k room).run v priv w

-- What follows the vector.
abbrev after_vector :
    MultiTxn → BuffStruct → Outcome (TxnVector × BuffStruct) → Outcome (MultiTxn × BuffStruct)
after_vector v priv o =
    proceed ia_end_record (on_field (λ v. v.txns) (λ v x. record v { txns = x }) (λ s. o) (v, priv))

multi_txn-Returned :
    (host : Host) (v : MultiTxn) (priv : BuffStruct)
    → Returned priv (deserialize_txn_vector host (v.txns, priv))
    → Returned priv (deserialize_multi_txn host (v, priv))
unfolding deserialize_multi_txn ia_start_record ia_end_record ◌>>◌ on_field skip
multi_txn-Returned host v priv r = elim (Bool-cases (r.rc == 0)) [
  | inr failed ↦ record {
    rc = r.rc;
    result = record v { txns = r.result };
    next = r.next;
    returned = ap (after_vector v priv) r.returned ∙ rw failed refl;
    input = r.input;
    same_buffer = r.same_buffer;
    forward = r.forward;
  }
  | inl fine ↦ record {
    rc = 0;
    result = record v { txns = r.result };
    next = r.next;
    returned = ap (after_vector v priv) r.returned ∙ rw fine refl;
    input = r.input;
    same_buffer = r.same_buffer;
    forward = r.forward;
  }
]

-- Over an input archive of any bytes, well formed or not, and any old contents of the variable, there
-- are two ways for `deserialize_MultiTxn`. It returns, having read no byte outside the archive, and
-- leaves an archive over the same bytes, its offset not moved back. Or the archive holds a length and
-- asks for elements whose memory `calloc` refuses, and its behaviour is undefined. The allocator is any
-- that refuses more than the largest object size.
pub deserialize_multi_txn-Settled :
    (host : Host) (v : MultiTxn) (priv : BuffStruct)
    → IsUsable host
    → IsInput priv
    → Returned priv (deserialize_multi_txn host (v, priv))
      ⊎ Unbacked host 24 v.txns.count priv (deserialize_multi_txn host (v, priv))
unfolding deserialize_multi_txn ia_start_record ia_end_record ◌>>◌ on_field skip
    deserialize_txn_vector
deserialize_multi_txn-Settled host v priv k w =
    elim (deserialize_vector-Settled host 24 _ (deserialize_txn host) (deserialize_txn-Safe host k)
      v.txns priv w) [
        | inl r ↦ inl (multi_txn-Returned host v priv r)
        | inr u ↦ inr (record {
          count = u.count;
          next = u.next;
          read = u.read;
          some_items = u.some_items;
          refused = u.refused;
          outcome = ap (after_vector v priv) u.outcome;
        })
      ]
