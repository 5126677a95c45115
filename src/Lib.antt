-- ===== src/Lib.antt =====
-- PAM-PKCS#11: login with a smart card. A model of its core and the theorems that make it correct.
--
-- The program is a PAM module. `pam_sm_authenticate` (src/pam_pkcs11/pam_pkcs11.c) reads the
-- configuration, finds the token in the slots of a PKCS #11 library (src/common/pkcs11_lib.c), logs
-- in to it with a PIN, verifies the certificates of the token (src/common/cert_vfy.c), and asks the
-- chain of mapper modules (src/pam_pkcs11/mapper_mgr.c, src/mappers) whose certificate it is. It
-- then has the card sign a random value.
--
-- Files:
--   * Base: names of the libraries, Boolean tests on numbers, lists with native lengths, the C
--     `int` as an integer, and the C library's functions on strings. A string is the list of its
--     bytes before the terminator; a null pointer is `none`.
--   * Strings, Uri: src/common/strings.c, src/common/strndup.c and the file tests of
--     src/common/uri.c. Strings.Hex has the functions whose use of memory is modelled too.
--     Uri.Generic has the parts of a URI and the choice of how to fetch it, in the build without
--     libcurl, and Uri.Generic.Fetch the reading of a file and of a response of HTTP.
--   * CertInfo: src/common/cert_info.c in the build with OpenSSL. What OpenSSL gives for a certificate
--     is the record `Cert` of CertInfo.Request; the static array of addresses is passed along.
--     CertInfo.Sshpuk has the line of a key, over numbers of OpenSSL with four operations.
--   * CertVfy: `verify_certificate` of src/common/cert_vfy.c in the build with OpenSSL, its store
--     of trusted files and the CRL policies. OpenSSL, the download of a CRL and `stat` are the
--     record `Ossl`. CertVfy.Download has `download_crl`, on data that is fetched and for a parser
--     given; what it reads behind the data, or behind the text, is the result `outside`.
--     CertVfy.Signature has `verify_signature`, with OpenSSL as the record `Evp`.
--   * Pkcs11: src/common/pkcs11_lib.c, in the build with OpenSSL and SHA-256. Pkcs11.Slots has the
--     searches for a slot on a table of slots, and the loops that wait for a token. The other
--     files work on the handle: Pkcs11.Cryptoki has its record with all calls made so far, and the
--     record `Cryptoki` of the PKCS #11 module, whose answer to a call may depend on the calls
--     before it. Pkcs11.Module loads the module and fills the table of slots; a result of `none` is
--     an access outside the table or to freed memory. Pkcs11.Session opens a session and logs in;
--     Pkcs11.Objects lists the certificates, finds a private key and signs.
--   * Base64: src/common/base64.c.
--   * MapperMgr: src/pam_pkcs11/mapper_mgr.c. The state `Mgr` holds the chain, the debug level and
--     the open handles. The configuration, the dynamic linker and the static mappers are the record
--     `Loader`.
--   * Mappers.Mapfile, Mappers.Pwent: src/mappers/mapper.c, and src/mappers/pwent_mapper.c.
--   * Mappers.Names, Mappers.Mail, Mappers.Ms: src/mappers/cn_mapper.c, uid_mapper.c,
--     krb_mapper.c, subject_mapper.c, mail_mapper.c and ms_mapper.c. The init functions of
--     Mappers.Names are what a `Loader` holds, so that a chain of them runs in the model.
--   * Pam: src/pam_pkcs11/pam_pkcs11.c. `World` is the state that the module changes: messages,
--     module handle, session, the PIN in memory, the chain, the PAM user and the environment. `Env`
--     has the results of the calls that leave the file. The long function is a sequence of steps
--     with `>>=`, each of which goes on, returns a code or waits for ever.
--   * Mappers.Generic: src/mappers/generic_mapper.c and src/mappers/digest_mapper.c, with
--     src/common/algorithm.c in Mappers.Generic.Digest.
--   * Mappers.Null: src/mappers/null_mapper.c. Mappers.Modules has the init functions of
--     src/mappers/pwent_mapper.c and src/mappers/mail_mapper.c.
--   * Mappers.Openssh, Mappers.Opensc: src/mappers/openssh_mapper.c and src/mappers/opensc_mapper.c, with
--     the loop over the password database in Mappers.Homes. Their parameter for a certificate is its
--     public key, or any type.
--   * Pam.Config: src/pam_pkcs11/pam_config.c, from the defaults, the file and the arguments to the
--     record `Configuration`. What the file holds is the record `Scconf`.
--   * Tools.Eventmgr: src/tools/pkcs11_eventmgr.c, the commands of an event, and the loop that watches
--     the card as a step on its variables, for the answers that the module gives in each round.
--   * Tools.CardEventmgr: src/tools/card_eventmgr.c. `main` is a step from phase to phase, for what PC/SC
--     answers meanwhile; Tools.Options has the options of both event managers and what comes before
--     the loop.
--   * Tools.Tokens: src/tools/pklogin_finder.c, src/tools/pkcs11_inspect.c and
--     src/tools/pkcs11_listcerts.c, as sequences of steps like those of Pam, on the `Env` of Pam.
--   * Tests: runs on small inputs, and the theorems applied to them.
--
-- Bounds: `get_mapent` and `find_entry` of Mappers.Mapfile run on fuel that is one more than the
-- length of the text, and each round takes a character at least; so does `base64_decode`, whose
-- rounds take four characters. `get_certificate_list` and `sign_value` take fuel as an argument, since
-- it is for the token to end their loops: one round for each object and one more, and one round for
-- each size of the buffer. An `int` is an integer without bounds; a negative slot number becomes an
-- unsigned one of 32 bits, and the sizes of Base64 wrap around at 64 bits. `get_http` has fuel for seven
-- requests, since its seventh level follows no redirection, and takes the rounds of the loop that receives
-- a response as an argument, since it is for the server to end it: one for each byte and one more.
-- `get_file` has fuel for as many rounds as the file has bytes, since a round that reads nothing is the
-- last.
--
-- Not modelled: allocation failures; informational prompts, logging and sleeping; the build with
-- NSS; the configuration parser (scconf), which is a library that the program copies; random numbers;
-- get_ldap of src/common/uri.c; the mappers and the tools that are not named above. The mappers take
-- what CertInfo gives as an argument, and CertVfy the download of a CRL.
pub mod Base
pub mod Base64
pub mod CertInfo
pub mod CertVfy
pub mod MapperMgr
pub mod Mappers
pub mod Pam
pub mod Pkcs11
pub mod Strings
pub mod Tests
pub mod Tools
pub mod Uri
