-- ===== src/Storage/Client/Reads.antt =====
-- What a read returns, and that what was written is read.
use mathlib.Core.Path.{subst}
use finokit.Base.{
  ℕ, zero, suc, ◌+◌, ◌<◌, List, [], ◌∷◌, Option, none, some, false, Text, length, take, Result, ok,
  err, >>=-eq-ok, refuse_if_iff, ok_injective, ℤ, pos, pos_part, ltb_ℤ, ◌+ℤ◌, ◌≤ℤ◌, ◌≡◌, refl, ap,
  sym, ◌∙◌, arith, ◌↔◌, inl, inr, ltb, Bool-cases, Option-cases, Result-cases, if◌then◌else◌,
}
use finokit.Storage.{Config, Object, validate_write_object}
use finokit.Storage.Pages.{validate_write_object_iff}
use finokit.Storage.Requests.{RequestOptions}
use finokit.Storage.Client.{
  Access, Body, Handle, Minio, PutOptions, read_limited, read_limit, read_body, bucket_of,
  or_outside, answer, read, write,
}

take-all : {A : Type 0} (n : ℕ) (xs : List A) → length (take n xs) < n → take n xs ≡ xs
take-all zero xs h = absurd (omega arith)
take-all (suc n) [] h = refl
take-all (suc n) (x ∷ xs) h = ap (◌∷◌ x) (take-all n xs (omega arith))

-- A body is read whole where what was read is shorter than the limit.
read_limited-ok :
    (limit : ℤ) (body : Body) (content : Text)
    → read_limited limit body ≡ ok content
    → length content < pos_part limit
    → (content ≡ body.bytes) × (body.failure ≡ none)
unfolding read_limited
read_limited-ok limit body content h short =
    elim (Bool-cases (ltb (length body.bytes) (pos_part limit))) [
      | inl within ↦ elim (Option-cases body.failure) [
        | inl whole ↦ (ground arith, whole)
        | inr (e, broken) ↦ absurd (ground arith)
      ]
      | inr longer ↦
          let all = take-all (pos_part limit) body.bytes (ground arith) in absurd (ground arith)
    ]

read_limited_whole :
    (limit : ℤ) (body : Body)
    → length body.bytes < pos_part limit
    → body.failure ≡ none
    → read_limited limit body ≡ ok body.bytes
unfolding read_limited
read_limited_whole limit body short whole = rw whole (ground arith)

or_outside-ok : {A : Type 0} {r : Result Text A} {a : A} → or_outside r ≡ ok a → r ≡ ok a
or_outside-ok {r = ok a} h = ground arith
or_outside-ok {r = err e} h = cc

-- The object that a read returns for what the server holds.
abbrev pub read_object : Object → Text → Object
read_object info bytes = record info {
  content = bytes;
  size = if ltb_ℤ info.size (pos 0) then pos (length bytes) else info.size;
}

read_limit_lem : (n : ℕ) → n < 9223372036854775807 → read_limit (pos n) ≡ pos (n + 1)
unfolding ◌+ℤ◌
read_limit_lem n small = ground arith

read_body-ok :
    (n : ℕ) (info : Object) (body : Body) (object : Object)
    → n < 9223372036854775807
    → read_body (pos n) info body ≡ ok object
    → (info.size ≤ℤ pos n)
      × (length body.bytes < n + 1)
      × (body.failure ≡ none)
      × (object ≡ read_object info body.bytes)
unfolding read_body
read_body-ok n info body object small h =
    let (fits, rest) = (refuse_if_iff (ltb_ℤ (pos n) info.size) _ _ object).0 h in
    let (content, got, rest') =
      >>=-eq-ok (or_outside (read_limited (read_limit (pos n)) body)) _ rest in
    let (short, same) = (refuse_if_iff (ltb_ℤ (pos n) (pos (length content))) _ _ object).0 rest' in
    let read_all : read_limited (pos (n + 1)) body ≡ ok content =
      subst (λ limit. read_limited limit body ≡ ok content) (read_limit_lem n small)
        (or_outside-ok got) in
    let (all, whole) = read_limited-ok (pos (n + 1)) body content read_all (ground arith) in
    (
      ground arith,
      ground arith,
      whole,
      subst (λ bytes. object ≡ read_object info bytes) all (sym (ok_injective same)),
    )

read_body_whole :
    (n : ℕ) (info : Object) (body : Body)
    → n < 9223372036854775807
    → info.size ≤ℤ pos n
    → length body.bytes < n + 1
    → body.failure ≡ none
    → read_body (pos n) info body ≡ ok (read_object info body.bytes)
unfolding read_body
read_body_whole n info body small stated fits whole =
    let limit = read_limit_lem n small in
    let got = read_limited_whole (pos (n + 1)) body fits whole in
    let stated' : ltb_ℤ (pos n) info.size ≡ false = ground arith in
    let fits' : ltb_ℤ (pos n) (pos (length body.bytes)) ≡ false = ground arith in
    rw (stated', limit, got, fits') refl

module _ {St : Type 0} (minio : Minio St) where
  -- Where the limit is an int64 below the largest, reading a key succeeds just when the server opens the
  -- object and describes it, its stated size and the length of its whole body are within the limit, and
  -- the body can be read to its end; the object then has the whole body as its content, never a part
  -- of it, and the stated size, or the body's length where the stated size is negative.
  pub read_iff :
      (cfg : Config Access) (key : Text) (o : RequestOptions) (s : St) (n : ℕ) (object : Object)
      → cfg.max_object_size ≡ pos n
      → n < 9223372036854775807
      → (read minio cfg key o s ≡ ok object) ↔ (
          (h : Handle) × (info : Object) × (minio.get_object (bucket_of cfg o) key s ≡ ok h)
          × (h.stat ≡ ok info)
          × (info.size ≤ℤ pos n)
          × (length h.body.bytes < n + 1)
          × (h.body.failure ≡ none)
          × (object ≡ read_object info h.body.bytes))
  unfolding read
  read_iff cfg key o s n object limit small = (
    λ success.
        let (h, opened, rest) =
          >>=-eq-ok (or_outside (minio.get_object (bucket_of cfg o) key s)) _ success in
        let (info, described, rest') = >>=-eq-ok (or_outside h.stat) _ rest in
        let (stated, fits, whole, same) =
          read_body-ok n info h.body object small
            (subst (λ m. read_body m info h.body ≡ ok object) limit rest') in
        (h, info, or_outside-ok opened, or_outside-ok described, stated, fits, whole, same),
    λ (h, info, opened, described, stated, fits, whole, same).
        rw (opened, described)
          (ap (λ m. read_body m info h.body) limit
            ∙ read_body_whole n info h.body small stated fits whole
            ∙ ap ok (sym same)),
  )

  -- What S3 promises of a put: the object is then found under its key, with its content.
  abbrev pub Stores : Type 0
  Stores =
      (b k content : Text) (size : ℤ) (opts : PutOptions) (s : St)
      → size ≡ pos (length content)
      → (minio.put_object b k content size opts s).0 ≡ none
      → (h : Handle) × (info : Object) × (minio.get_object b k
            (minio.put_object b k content size opts s).1
          ≡ ok h)
        × (h.stat ≡ ok info)
        × (info.key ≡ k)
        × (info.size ≡ size)
        × (h.body.bytes ≡ content)
        × (h.body.failure ≡ none)

  answer-none : {r : Option Text × St} → (answer r).0 ≡ none → (r.0 ≡ none) × ((answer r).1 ≡ r.1)
  answer-none {r = (none, s)} h = (refl, refl)
  answer-none {r = (some e, s)} h = cc

  write-none :
      (cfg : Config Access) (object : Object) (o : RequestOptions) (s : St)
      → (write minio cfg (some object) o s).0 ≡ none
      → (size : ℤ) × (validate_write_object cfg.max_object_size (some object) ≡ ok size)
        × (write minio cfg (some object) o s
            ≡ answer (
                minio.put_object
                  (bucket_of cfg o)
                  object.key
                  object.content
                  size
                  (record { content_type = object.content_type; num_threads = o.concurrency })
                  s))
  unfolding write
  write-none cfg object o s h =
      elim (Result-cases (validate_write_object cfg.max_object_size (some object))) [
        | inr (e, bad) ↦ absurd (ground arith)
        | inl (size, good) ↦ (size, good, rw (write, good) refl)
      ]

  -- On a server that stores what is put there, and with a limit below the largest int64: when `Write`
  -- succeeds, a `Read` of the object's key from the same bucket succeeds, whatever its other options, and
  -- returns an object with the key and the content that were written, whose size is the content's length.
  pub read-write :
      Stores
      → (cfg : Config Access) (object : Object) (o o' : RequestOptions) (s : St) (n : ℕ)
      → cfg.max_object_size ≡ pos n
      → n < 9223372036854775807
      → bucket_of cfg o' ≡ bucket_of cfg o
      → (write minio cfg (some object) o s).0 ≡ none
      → (back : Object) × (read minio cfg object.key o' (write minio cfg (some object) o s).1
          ≡ ok back)
        × (back.key ≡ object.key)
        × (back.content ≡ object.content)
        × (back.size ≡ pos (length object.content))
  read-write stores cfg object o o' s n limit small same written =
      let (size, accepted, put) = write-none cfg object o s written in
      let (_, whole, within, _) =
        (validate_write_object_iff cfg.max_object_size object size).0 accepted in
      let (done, after) = answer-none (sym (ap (λ r. r.0) put) ∙ written) in
      let (h, info, found, described, named, sized, content, sound) =
        stores (bucket_of cfg o) object.key object.content size _ s whole done in
      let at : minio.get_object (bucket_of cfg o') object.key (write minio cfg (some object) o s).1
          ≡ ok h =
        rw (same, put, after) found in
      let reads =
        (read_iff cfg object.key o' (write minio cfg (some object) o s).1 n
            (read_object info h.body.bytes) limit small).1
          (h, info, at, described, ground arith, ground arith, sound, refl) in
      (read_object info h.body.bytes, reads, named, content, ground arith)
