-- ===== src/Tftp/Request/Refusals.antt =====
-- Which requests are refused, and that a refusal touches no file.
use docsis_server.Prelude.{
  ℕ, ◌+◌, ◌≤◌, suc, subst, ◌≡◌, ◌≢◌, refl, take, drop, length-append, ne→==_false, le→ltb_false,
  str_eq, ap, sym, ◌∙◌, true, ◌||◌, none, some, List, [], ◌∷◌, ◌++◌, length, arith, done, ◌>>=◌,
  bytes,
}
use docsis_server.Tftp.Cache.{Cache}
use docsis_server.Tftp.Session.{Client, Stats, cp_done, nak, error_packet, quiet}
use docsis_server.Tftp.Session.Naks.{nak_answers}
use docsis_server.Tftp.Request.{
  Env, until_nul, lower_all, strstr, starts_with, validate_access, refused, eaccess, admit,
  take_mode, take_request, tftp, bad_name,
}

starts_with-++ : (needle tail : List ℕ) → starts_with needle (needle ++ tail) ≡ true
unfolding starts_with
starts_with-++ [] tail = refl
starts_with-++ (c ∷ cs) tail = ground (arith, starts_with-++ cs tail)

-- strstr finds what is there.
strstr-++ : (front needle tail : List ℕ) → strstr (front ++ needle ++ tail) needle ≡ true
unfolding strstr
strstr-++ [] [] [] = starts_with-++ [] []
strstr-++ [] [] (c ∷ tail) = ground (arith, starts_with-++ [] (c ∷ tail))
strstr-++ [] (c ∷ needle) tail = ground (arith, starts_with-++ (c ∷ needle) tail)
strstr-++ (c ∷ front) needle tail = ground (arith, strstr-++ front needle tail)

dots_found :
    (front tail : List ℕ)
    → strstr (front ++ bytes "../" ++ tail) (bytes "/../")
        || strstr (front ++ bytes "../" ++ tail) (bytes "../")
      ≡ true
dots_found front tail = ground (arith, strstr-++ front (bytes "../") tail)

-- A path that climbs out of the TFTP directory by `../` is refused, and neither the client nor the
-- cache changes: no file is read.
pub escape_refused :
    (env : Env) (cl : Client) (c : Cache) (front tail : List ℕ)
    → validate_access env cl (front ++ bytes "../" ++ tail) c ≡ done (refused eaccess cl c)
unfolding validate_access
escape_refused env cl c front tail = rw (dots_found front tail)

-- A C string inside a packet.
abbrev pub NoNul : List ℕ → Type 0
NoNul [] = Unit {0}
NoNul (c ∷ cs) = (c ≢ 0) × NoNul cs

until_nul-++ : (name rest : List ℕ) → NoNul name → until_nul (name ++ 0 ∷ rest) ≡ some (name, rest)
unfolding until_nul
until_nul-++ [] rest h = refl
until_nul-++ (c ∷ name) rest h = rw (ne→==_false c 0 h.0, until_nul-++ name rest h.1)

until_nul-none : (s : List ℕ) → NoNul s → until_nul s ≡ none
unfolding until_nul
until_nul-none [] h = refl
until_nul-none (c ∷ s) h = rw (ne→==_false c 0 h.0, until_nul-none s h.1)

abbrev pub octet_end : List ℕ
octet_end = bytes "octet" ++ 0 ∷ []

-- A read request for a file in the mode octet.
abbrev pub rrq : List ℕ → List ℕ
rrq name = 0 ∷ 1 ∷ (name ++ 0 ∷ octet_end)

-- The name has no NUL byte and no slash in front, and fits a packet.
abbrev pub Plain : List ℕ → Type 0
Plain [] = ⊥
Plain (c ∷ cs) = (c ≢ 47) × NoNul (c ∷ cs) × (length cs ≤ 500)

take_mode-octet :
    (env : Env) (cl : Client) (c : Cache) (st : Stats) (name : List ℕ)
    → take_mode env cl c st name octet_end ≡ (validate_access env cl name c >>= admit st)
unfolding take_mode lower_all str_eq until_nul
take_mode-octet env cl c st name = refl

length_request :
    (x : ℕ) (name : List ℕ) → length name ≤ 500 → length (x ∷ (name ++ 0 ∷ octet_end)) ≤ 4096
length_request x name small =
    let rest : List ℕ = 0 ∷ octet_end in
    let seven : length rest ≡ 7 = refl in
    let whole : length (name ++ rest) ≡ length name + length rest = length-append name rest in
    subst (λ n. suc n ≤ 4096) (sym (whole ∙ ap (◌+◌ (length name)) seven)) (omega arith)

request-rrq :
    (env : Env) (cl : Client) (c : Cache) (st : Stats) (name : List ℕ)
    → Plain name
    → take_request env cl c st (name ++ 0 ∷ octet_end)
      ≡ (validate_access env cl name c >>= admit st)
unfolding take_request until_nul validate_access
request-rrq env cl c st [] h = absurd h
request-rrq env cl c st (x ∷ name) (h, nul, small) =
    rw
      (
        le→ltb_false 4096 (length (x ∷ (name ++ 0 ∷ octet_end))) (length_request x name small),
        ne→==_false x 47 h,
        ne→==_false x 0 nul.0,
        until_nul-++ name octet_end nul.1,
      )
      (take_mode-octet env cl c st (x ∷ name))

take-length : (xs ys : List ℕ) → take (length xs) (xs ++ ys) ≡ xs
take-length [] ys = refl
take-length (x ∷ xs) ys = ap (◌∷◌ x) (take-length xs ys)

-- The client holds that packet, in a receive buffer with older bytes behind it.
abbrev pub asking : Client → List ℕ → List ℕ → Client
asking cl packet junk = record cl { tp = some (packet ++ junk); tpcc = length packet }

-- A read request in the mode octet for a plain name is answered as validate_access says.
pub tftp-rrq :
    (env : Env) (cl : Client) (c : Cache) (st : Stats) (name junk : List ℕ)
    → Plain name
    → tftp env (asking cl (rrq name) junk) c st
      ≡ (validate_access env (asking cl (rrq name) junk) name c >>= admit st)
unfolding tftp
tftp-rrq env cl c st name junk h =
    ap (λ req. take_request env (asking cl (rrq name) junk) c st (drop 2 req))
      (take-length (rrq name) junk)
    ∙ request-rrq env (asking cl (rrq name) junk) c st name h

-- A read request in the mode octet whose name climbs out of the TFTP directory by `../` ends the
-- session: nothing is sent, and the cache stays as it was. The name has at most 501 bytes, none of them
-- NUL, and no slash in front.
pub tftp-escape :
    (env : Env) (cl : Client) (c : Cache) (st : Stats) (front tail junk : List ℕ)
    → let name : List ℕ = front ++ bytes "../" ++ tail in
      Plain name
      → tftp env (asking cl (rrq name) junk) c st
        ≡ done (quiet (record (asking cl (rrq name) junk) { proc = cp_done }) c st)
unfolding admit
tftp-escape env cl c st front tail junk h =
    let name : List ℕ = front ++ bytes "../" ++ tail in
    rw (
      tftp-rrq env cl c st name junk h,
      escape_refused env (asking cl (rrq name) junk) c front tail,
    )

take_request_empty :
    (env : Env) (cl : Client) (c : Cache) (st : Stats)
    → take_request env cl c st [] ≡ nak cl c (bad_name st) 4
unfolding take_request until_nul
take_request_empty env cl c st = refl

take_request_cut :
    (env : Env) (cl : Client) (c : Cache) (st : Stats) (req : List ℕ)
    → NoNul req
    → take_request env cl c st req ≡ nak cl c (bad_name st) 4
unfolding take_request until_nul validate_access
take_request_cut env cl c st [] h = take_request_empty env cl c st
take_request_cut env cl c st (x ∷ req) (h, hs) =
    ground (arith, until_nul-none (x ∷ req) (h, hs), until_nul-none req hs)

-- A read request without a NUL byte behind its opcode is answered with the ERROR packet of code 4.
pub tftp_cut :
    (env : Env) (cl : Client) (c : Cache) (st : Stats) (req junk : List ℕ)
    → NoNul req
    → (msg : List ℕ) × (tftp env (asking cl (0 ∷ 1 ∷ req) junk) c st
        ≡ done (record {
          client = record (asking cl (0 ∷ 1 ∷ req) junk) { proc = cp_done };
          cache = c;
          stats = bad_name st;
          sends =
              record { to_addr = cl.addr; to_port = cl.port; content = error_packet 4 msg } ∷ [];
        }))
unfolding tftp
tftp_cut env cl c st req junk h =
    let cl' : Client = asking cl (0 ∷ 1 ∷ req) junk in
    let (msg, e) = nak_answers cl' c (bad_name st) 4 (omega arith) in
    (
      msg,
      ap (λ r. take_request env cl' c st (drop 2 r)) (take-length (0 ∷ 1 ∷ req) junk)
          ∙ take_request_cut env cl' c st req h
          ∙ e,
    )
