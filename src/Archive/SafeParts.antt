-- ===== src/Archive/SafeParts.antt =====
-- recordio.c: strings and buffers of any input, and the rules by which safe reads are put together.
use zkclient.Prelude.{
  ℕ, ◌+◌, ◌-◌, ◌≤◌, ◌<◌, ◌≡◌, refl, ◌∙◌, inl, inr, true, none, some, take, drop, ◌==◌, Bool-cases,
  ltb→le, ltb→lt, arith,
}
use zkclient.CInt.{int_max, int_lt, int_sub, is_negative, to_size, to_size-natural}
use zkclient.Outcome.{Outcome, skip, ◌>>◌}
use zkclient.Host.{Host}
use zkclient.Archive.{BuffStruct, Buffer, CString, e2big, enomem, einval}
use zkclient.Archive.Input.{
  Load, on_field, ia_start_record, ia_end_record, ia_deserialize_buffer, ia_buffer_body,
  ia_deserialize_string, ia_string_body,
}
use zkclient.Archive.Safety.{
  IsInput, IsUsable, Returned, Safe, unchanged, fetched, advanced, room_int, int-Returned,
}

module _ (host : Host) where
  buffer_body-Returned :
      (b : Buffer) (priv : BuffStruct)
      → IsUsable host
      → IsInput priv
      → Returned priv (ia_buffer_body host b priv)
  unfolding ia_buffer_body
  buffer_body-Returned b priv k w = elim (Bool-cases (int_lt (int_sub priv.len priv.off) b.len)) [
    | inl short ↦ unchanged priv w e2big b (rw short refl)
    | inr enough ↦ elim (Bool-cases (b.len == 4294967295)) [
      | inl null ↦ unchanged priv w 0 (record b { buff = none }) (simp (enough, null) refl)
      | inr some_bytes ↦ elim (Bool-cases (host.grants (to_size b.len))) [
        | inr refused ↦
            unchanged priv w enomem (record b { buff = none })
              (simp (enough, some_bytes, refused) refl)
        | inl granted ↦ elim (Bool-cases (is_negative b.len)) [
          | inl negative ↦ cc (granted, k.refuses_huge (to_size b.len) (huge negative))
          | inr natural ↦
              let small : b.len ≤ int_max = ltb→le int_max b.len natural in
              let fits : b.len ≤ priv.len - priv.off =
                ltb→le _ _ (rw (room_int priv w b.len small) at enough) in
              advanced priv w b.len (record b { buff = some (take b.len (drop priv.off w.mem)) })
                fits
                (simp (enough, some_bytes, granted)
                  (rw (to_size-natural b.len small) (rw (fetched priv w b.len fits) refl)))
        ]
      ]
    ]
  ]
    where
      huge : is_negative b.len ≡ true → 9223372036854775807 < to_size b.len
      huge e = simp e (omega (arith, ltb→lt int_max b.len e))

  string_body-Returned :
      (s : CString) (len : ℕ) (priv : BuffStruct)
      → IsInput priv
      → Returned priv (ia_string_body host s len priv)
  unfolding ia_string_body
  string_body-Returned s len priv w = elim (Bool-cases (int_lt (int_sub priv.len priv.off) len)) [
    | inl short ↦ unchanged priv w e2big s (rw short refl)
    | inr enough ↦ elim (Bool-cases (is_negative len)) [
      | inl negative ↦ unchanged priv w einval s (rw (enough, negative) refl)
      | inr natural ↦ elim (Bool-cases (host.grants (len + 1))) [
        | inr refused ↦ unchanged priv w enomem none (rw (enough, natural) (rw refused refl))
        | inl granted ↦
            let fits : len ≤ priv.len - priv.off =
              ltb→le _ _ (rw (room_int priv w len (ltb→le int_max len natural)) at enough) in
            advanced priv w len (some (take len (drop priv.off w.mem))) fits
              (rw (enough, natural) (rw granted (rw (fetched priv w len fits) refl)))
      ]
    ]
  ]

-- A call that goes on from where another one stopped.
pub later {ℓ} :
    {A : Type ℓ} (priv next : BuffStruct) {o : Outcome (A × BuffStruct)}
    → next.buffer ≡ priv.buffer
    → priv.off ≤ next.off
    → Returned next o
    → Returned priv o
later priv next same forward r = record {
  rc = r.rc;
  result = r.result;
  next = r.next;
  returned = r.returned;
  input = r.input;
  same_buffer = r.same_buffer ∙ same;
  forward = omega (arith, r.forward);
}

module _ {ℓ} {A : Type ℓ} where
  pub Safe-skip : Safe {A = A} skip
  unfolding skip
  Safe-skip = record {
    run = λ v priv w. record {
      rc = 0;
      result = v;
      next = priv;
      returned = refl;
      input = w;
      same_buffer = refl;
      forward = omega arith;
    };
  }

  pub Safe-field :
      {F : Type ℓ} (get : A → F) (put : A → F → A) {m : Load F} → Safe m → Safe (on_field get put m)
  unfolding on_field
  Safe-field {F} get put {m} s = record {
    run = λ v priv w.
        let r = s.run (get v) priv w in
        record {
          rc = r.rc;
          result = put v r.result;
          next = r.next;
          returned = rw (r.returned, on_field) refl;
          input = r.input;
          same_buffer = r.same_buffer;
          forward = r.forward;
        };
  }

  pub Safe-then : {m next : Load A} → Safe m → Safe next → Safe (m >> next)
  unfolding ◌>>◌
  Safe-then {m} {next} s t = record {
    run = λ v priv w.
        let r = s.run v priv w in
        elim (Bool-cases (r.rc == 0)) [
          | inl fine ↦
              let u = t.run r.result r.next r.input in
              rw (r.returned) (rw fine (later priv r.next r.same_buffer r.forward u))
          | inr failed ↦ record {
            rc = r.rc;
            result = r.result;
            next = r.next;
            returned = rw r.returned (rw failed refl);
            input = r.input;
            same_buffer = r.same_buffer;
            forward = r.forward;
          }
        ];
  }

  pub Safe-start : {next : Load A} → Safe next → Safe (ia_start_record >> next)
  unfolding ia_start_record
  Safe-start s = Safe-then Safe-skip s

  pub Safe-end : {m : Load A} → Safe m → Safe (m >> ia_end_record)
  unfolding ia_end_record
  Safe-end s = Safe-then s Safe-skip

module _ (host : Host) (k : IsUsable host) where
  pub ia_deserialize_buffer-Safe : Safe (ia_deserialize_buffer host)
  unfolding ia_deserialize_buffer
  ia_deserialize_buffer-Safe = record {
    run = λ b priv w.
        let r = int-Returned host b.len priv w in
        elim (Bool-cases (is_negative r.rc)) [
          | inl failed ↦ record {
            rc = r.rc;
            result = record b { len = r.result };
            next = r.next;
            returned = rw (r.returned, ia_deserialize_buffer) (rw failed refl);
            input = r.input;
            same_buffer = r.same_buffer;
            forward = r.forward;
          }
          | inr fine ↦
              rw (r.returned, ia_deserialize_buffer)
                (rw fine (
                  later priv r.next r.same_buffer r.forward
                    (buffer_body-Returned host (record b { len = r.result }) r.next k r.input)))
        ];
  }

  pub ia_deserialize_string-Safe : Safe (ia_deserialize_string host)
  unfolding ia_deserialize_string
  ia_deserialize_string-Safe = record {
    run = λ s priv w.
        let r = int-Returned host 0 priv w in
        elim (Bool-cases (is_negative r.rc)) [
          | inl failed ↦ record {
            rc = r.rc;
            result = s;
            next = r.next;
            returned = rw (r.returned, ia_deserialize_string) (rw failed refl);
            input = r.input;
            same_buffer = r.same_buffer;
            forward = r.forward;
          }
          | inr fine ↦
              rw (r.returned, ia_deserialize_string)
                (rw fine (
                  later priv r.next r.same_buffer r.forward
                    (string_body-Returned host s r.result r.next r.input)))
        ];
  }
