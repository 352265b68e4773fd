-- ===== src/Tests/Codec.antt =====
-- A concrete encoding of jobs and maps, for the examples: a text behind its length, a list behind
-- the number of its entries.
use storebirth.Base.{
  ℕ, zero, suc, ◌≡◌, refl, ap, [], ◌∷◌, ◌++◌, Option, none, some, Text, length, take, drop,
}
use storebirth.Jobs.{
  StringMap, Job, register_user, user_audit, deploy_worker, delete_worker_cr, sync_env, sync_secret,
  create_rdb, delete_rdb, create_kv, delete_kv, domain_check,
}
use storebirth.Jobs.Wire.{ReadsBack}

take-append : (s t : Text) → take (length s) (s ++ t) ≡ s
take-append [] t = refl
take-append (c ∷ s) t = ap (λ r. c ∷ r) (take-append s t)

drop-append : (s t : Text) → drop (length s) (s ++ t) ≡ t
drop-append [] t = refl
drop-append (c ∷ s) t = drop-append s t

write : Text → Text → Text
write s rest = length s ∷ (s ++ rest)

head_text : Text → Text
head_text [] = []
head_text (n ∷ rest) = take n rest

tail_text : Text → Text
tail_text [] = []
tail_text (n ∷ rest) = drop n rest

head_text-write : (s rest : Text) → head_text (write s rest) ≡ s
unfolding head_text write
head_text-write s rest = take-append s rest

tail_text-write : (s rest : Text) → tail_text (write s rest) ≡ rest
unfolding tail_text write
tail_text-write s rest = drop-append s rest

ruleset reading = (head_text-write, tail_text-write)

write_entries : StringMap → Text
write_entries [] = []
write_entries ((k, v) ∷ m) = write k (write v (write_entries m))

read_entries : ℕ → Text → StringMap
read_entries zero t = []
read_entries (suc n) t =
    (head_text t, head_text (tail_text t)) ∷ read_entries n (tail_text (tail_text t))

read_entries-write_entries : (m : StringMap) → read_entries (length m) (write_entries m) ≡ m
unfolding read_entries write_entries
read_entries-write_entries [] = refl
read_entries-write_entries ((k, v) ∷ m) = simp (reading, read_entries-write_entries m)

pub encode_map : StringMap → Text
encode_map m = length m ∷ write_entries m

pub decode_map : Text → StringMap
decode_map [] = []
decode_map (n ∷ t) = read_entries n t

pub decode_map-encode_map : (m : StringMap) → decode_map (encode_map m) ≡ m
unfolding decode_map encode_map
decode_map-encode_map m = read_entries-write_entries m

pub marshal_job : Job → Text
unfolding write
marshal_job (register_user u) = write u []
marshal_job user_audit = []
marshal_job (deploy_worker w u v) = v ∷ write w (write u [])
marshal_job (delete_worker_cr w u) = write w (write u [])
marshal_job (sync_env w u m) = write w (write u (encode_map m))
marshal_job (sync_secret w u m) = write w (write u (encode_map m))
marshal_job (create_rdb u n r) = write u (write n (write r []))
marshal_job (delete_rdb u r) = write u (write r [])
marshal_job (create_kv u r) = write u (write r [])
marshal_job (delete_kv u r) = write u (write r [])
marshal_job domain_check = []

read_deploy : Text → Option Job
read_deploy [] = none
read_deploy (v ∷ t) = some (deploy_worker (head_text t) (head_text (tail_text t)) v)

pub unmarshal_job : Job → Text → Option Job
unfolding read_deploy
unmarshal_job (register_user _) t = some (register_user (head_text t))
unmarshal_job user_audit t = some user_audit
unmarshal_job (deploy_worker _ _ _) t = read_deploy t
unmarshal_job (delete_worker_cr _ _) t =
    some (delete_worker_cr (head_text t) (head_text (tail_text t)))
unmarshal_job (sync_env _ _ _) t =
    some (sync_env (head_text t) (head_text (tail_text t)) (decode_map (tail_text (tail_text t))))
unmarshal_job (sync_secret _ _ _) t =
    some
      (sync_secret (head_text t) (head_text (tail_text t)) (decode_map (tail_text (tail_text t))))
unmarshal_job (create_rdb _ _ _) t =
    some (create_rdb (head_text t) (head_text (tail_text t)) (head_text (tail_text (tail_text t))))
unmarshal_job (delete_rdb _ _) t = some (delete_rdb (head_text t) (head_text (tail_text t)))
unmarshal_job (create_kv _ _) t = some (create_kv (head_text t) (head_text (tail_text t)))
unmarshal_job (delete_kv _ _) t = some (delete_kv (head_text t) (head_text (tail_text t)))
unmarshal_job domain_check t = some domain_check

-- This encoding reads back even what is no value of a Go type.
pub reads_back : ReadsBack marshal_job unmarshal_job
unfolding marshal_job unmarshal_job
reads_back (register_user u) h = simp reading
reads_back user_audit h = refl
reads_back (deploy_worker w u v) h = simp reading
reads_back (delete_worker_cr w u) h = simp reading
reads_back (sync_env w u m) h = simp (reading, decode_map-encode_map)
reads_back (sync_secret w u m) h = simp (reading, decode_map-encode_map)
reads_back (create_rdb u n r) h = simp reading
reads_back (delete_rdb u r) h = simp reading
reads_back (create_kv u r) h = simp reading
reads_back (delete_kv u r) h = simp reading
reads_back domain_check h = refl
