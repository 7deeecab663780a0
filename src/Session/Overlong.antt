-- ===== src/Session/Overlong.antt =====
-- The log line for a client's handshake: src/SubversionSession.cc with the line buffer of
-- src/klog.cc.
use svnsrv.Base.{
  ℕ, suc, ltb, ◌≤◌, List, Bool, true, false, not, ◌||◌, [], ◌∷◌, ◌++◌, ◌≡◌, ◌≢◌, refl, ◌∙◌, ap,
  ◌==◌, is_empty, if◌then◌else◌, length, All, length-append, arith,
}
use svnsrv.Base.Int.{ℤ}
use svnsrv.Base.Run.{crash, bind_crash}
use svnsrv.Base.Text.{Bytes, codes, c_str, c_str-no_zero, Strtol}
use svnsrv.Handshake.Run.{IsPlain, IsWord}
use svnsrv.Handshake.RoundTrip.{opening, counted, Marks}
use svnsrv.Klog.{line_of}
use svnsrv.Router.{get_storage_element}
use svnsrv.Session.{
  Env, Session, Action, Handler, after_log, connect_storage, route_storage, resolve_url,
  read_downstream_handshake, accesses, logs,
}
use svnsrv.Session.Answered.{answered, read_downstream_handshake-answer}
use svnsrv.Url.{fresh_url, canonicalize}
use svnsrv.Url.Segments.{segment}
use svnsrv.Url.Correct.{canonicalize_segments}

ltb-false : (a b : ℕ) → b ≤ a → ltb a b ≡ false
ltb-false a b h = ground arith

==-false : (a b : ℕ) → suc b ≤ a → (a == b) ≡ false
==-false a b h = ground arith

line_of-overlong : (stamp message : Bytes) → 4096 ≤ length message → line_of stamp message ≡ crash
unfolding line_of
line_of-overlong stamp message h = rw (
  ltb-false (length (stamp ++ message)) 4095 (omega (arith, length-append stamp message)),
  ==-false (length (stamp ++ message)) 4095 (omega (arith, length-append stamp message)),
)

after_log-overlong :
    (kind : Bytes → Action) (env : Env) (message : Bytes) (next : Handler)
    → 4096 ≤ length message
    → after_log kind env message next ≡ crash
unfolding after_log
after_log-overlong kind env message next h = bind_crash _ _ (line_of-overlong env.stamp message h)

length-after : (front text : Bytes) (n : ℕ) → n ≤ length text → n ≤ length (front ++ text)
length-after front text n h = omega (arith, length-append front text)

length-before : (text back : Bytes) (n : ℕ) → n ≤ length text → n ≤ length (text ++ back)
length-before text back n h = omega (arith, length-append text back)

connect_storage-overlong :
    (env : Env) (s : Session)
    → 4096 ≤ length (c_str s.hds.subversion_url)
    → connect_storage env s ≡ crash
unfolding connect_storage
connect_storage-overlong env s h = after_log-overlong accesses env _ _ (
    length-after (codes "Storage: ") _ 4096 (
      length-after (c_str s.node.address) _ 4096 (
        length-after (codes " | URL: ") _ 4096
          (length-before (c_str s.hds.subversion_url) (codes " ") 4096 h))))

if-same {ℓ} : {A : Type ℓ} (b : Bool) (x y z : A) → x ≡ z → y ≡ z → (if b then x else y) ≡ z
if-same true x y z p q = p
if-same false x y z p q = q

route_storage-overlong :
    (env : Env) (found : Bool) (s : Session)
    → 4096 ≤ length (c_str s.hds.subversion_url)
    → route_storage env found s ≡ crash
unfolding route_storage
route_storage-overlong env found s h =
    if-same (not found || is_empty s.node.address) _ _ crash
      (after_log-overlong logs env _ _
        (length-after (codes "Cannot found Storage machine address, URL:") _ 4096 h))
      (connect_storage-overlong env s h)

-- A URL whose second segment is empty is accepted.
canonicalize-accepts :
    (strtol : Bytes → ℤ) (url : Bytes) (port : ℕ)
    → is_empty url ≡ false
    → is_empty (segment 1 url) ≡ true
    → not ((canonicalize strtol url (fresh_url port)).0 == 0) ≡ false
canonicalize-accepts strtol url port ne blank =
    ground (arith, canonicalize_segments strtol url port)

if-false {ℓ} : {A : Type ℓ} (b : Bool) (x y z : A) → b ≡ false → y ≡ z → (if b then x else y) ≡ z
if-false true x y z e q = ground arith
if-false false x y z e q = q

resolve_url-overlong :
    (env : Env) (s : Session)
    → 4096 ≤ length (c_str s.hds.subversion_url)
    → is_empty s.hds.subversion_url ≡ false
    → is_empty (segment 1 s.hds.subversion_url) ≡ true
    → resolve_url env s ≡ crash
unfolding resolve_url
resolve_url-overlong env s h ne blank =
    let url = canonicalize env.strtol s.hds.subversion_url (fresh_url env.garbage) in
    let found = get_storage_element env.router url.1 s.node in
    if-false _ _ _ crash (canonicalize-accepts env.strtol s.hds.subversion_url env.garbage ne blank)
      (route_storage-overlong env found.0 (record s { node = found.1 }) h)

not_empty : (text : Bytes) → text ≢ [] → is_empty text ≡ false
not_empty [] h = absurd (h refl)
not_empty (c ∷ cs) h = refl

-- A client's answer as the protocol has it, with a URL of 4096 or more bytes, none of them zero,
-- whose second slash follows the first one at once, kills the server: whether the URL's owner is
-- routed or not, the line that logs the URL does not fit the buffer of the line.
pub read_downstream_handshake-overlong :
    (c : Strtol) (env : Env) (s : Session) (v : ℕ) (caps : List Bytes)
    (mark url mark' client junk rest : Bytes)
    → env.strtol ≡ c.strtol
    → IsPlain v
    → All IsWord caps
    → Marks mark url
    → Marks mark' client
    → All (λ b. b ≢ 0) junk
    → All (λ b. b ≢ 0) url
    → 4096 ≤ length url
    → is_empty (segment 1 url) ≡ true
    → s.clt_buffer ≡ opening v caps (counted mark url (counted mark' client junk)) ++ rest
    → read_downstream_handshake env false
        (length (opening v caps (counted mark url (counted mark' client junk))))
        s
      ≡ crash
read_downstream_handshake-overlong c env s v caps mark url mark' client junk rest e hv hc m m' hj z
      long blank held =
    let ne : url ≢ [] = λ nil. omega (arith, ap length nil) in
    read_downstream_handshake-answer c env s v caps mark url mark' client junk rest e hv hc ne m m'
      hj held
    ∙ resolve_url-overlong env (answered s v caps mark url mark' client junk)
        (omega (arith, ap length (c_str-no_zero url z))) (not_empty url ne) blank
