-- ===== src/Lib.antt =====
-- lomo-backup scans directories into a database, packs the files into ISO images, encrypts these or
-- single files, and uploads them in parts. This library models the Go code of its own logic.
--
-- Common has what the parts share: lists, Boolean tests and text over the native numbers, and int64
-- (Common/Int), whose sums wrap around.
--
-- Datasize is common/datasize/datasize.go: printing and parsing sizes. Texts are ASCII. A number
-- has at most as many digits as its value, so that is the fuel of printing.
--
-- Io is common/io: FilePartReadSeeker (Io/PartReader) and ReadSeekSaver (Io/Saver) of
-- readseeker.go, CryptoStreamReader and CryptoStreamWriter (Io/CryptoStream) of crypto.go, each a
-- record with one function for each method, over an interface of readers and writers. Io/File is
-- os.File on a regular file, Io/Copy and Io/CopyInto the loop of io.Copy, Io/ReadFull that of
-- io.ReadFull. These loops run on fuel, one round for each read; the theorems show that one round
-- more than there are bytes is enough. An error is a value, and so is a panic of a slice
-- expression.
--
-- Crypto is common/crypto/crypto.go and the commands of cmd/lomob/crypt.go, with encryptCmd's loop
-- over parts in Crypto/Parts, whose fuel is a round for each byte and two more. SHA-256, Argon2id
-- and the key stream of AES in counter mode are parameters with the lengths their documentation
-- promises.
--
-- Hash is common/hash/hash.go: the hash of a file and those of its parts. It uses the part readers
-- of Io and is used by the upload of an ISO image.
--
-- Types is common/types/types.go. Dbx is common/dbx: the tables of schema/1.sql as lists of rows
-- (Dbx/Table), retryIfLocked (Dbx/Retry), the transactions of iso.go (Dbx/Iso, and Dbx/Iso/Parts
-- for the parts of an image) and of scan.go (Dbx/Scan, and Dbx/Scan/Listing for ListDirs and
-- ListFilesBySize). The begin, the attempts and the commit of a transaction are parameters of
-- retryIfLocked, which has the 100000 attempts of the code. The parts of an image are read in the
-- order of their numbers, which is that of the index that answers the query.
--
-- Upload is cmd/lomob/upload-iso.go: validateISO and prepareUploadParts, prepareUploadRequest and
-- validateISOMetafile (Upload/Request), calculatePartHash (Upload/PartHash), uploadRawParts
-- (Upload/Command, its loop in Upload/Raw) and uploadEncryptParts (Upload/Encrypted/Command, its
-- loop in Upload/Encrypted, which uses Crypto/Parts), with the client as a parameter, and uploadISO
-- as a whole (Upload/Metafile). It uses Hash for the parts, Dbx to store them, and Files for the
-- meta file.
--
-- Scan is cmd/lomob/scan.go with common/scan/scan.go: the walk over a tree (Scan/Walk), the channel
-- and the wait group between the two goroutines (Scan/Channel, a step relation), the handling of an
-- item on the tables (Scan), and all of it together (Scan/Whole). A tree is what filepath.WalkDir
-- meets.
--
-- Image is cmd/lomob/iso.go: createFileInStaging, createIso and mkISO on the tables of Dbx, with
-- the file system, mkisofs and package filepath as parameters. mkISO runs on fuel, a round for each
-- file that is listed and one more.
--
-- KeepDirs is KeepDirsTime of common/util.go, which createIso calls. The fuel is a round for each
-- step up from a directory to the root.
--
-- Files is cmd/lomob/upload-files.go: uploadFilesToS3 with uploadFileToS3, uploadRawFileToS3 and
-- uploadEncryptFileToS3 (Files), and uploadFilesToGdrive (Files/Drive) with the folders that it
-- makes (Files/Folders). It uses Crypto and Hash; the clients are parameters.
--
-- Client is clients/upload.go: AWSClient over the calls of the SDK, which are the record Service
-- with a state of its own, and abortUpload of cmd/lomob/upload-iso.go (Client/Abort). Io/Run has
-- the calls in sequence.
--
-- Gcloud is common/gcloud/upload.go: DriveClient over the calls of the Drive API, which are the
-- record DriveService with a state of its own.
--
-- Restore is cmd/lomob/restore.go. It uses Client and the MasterDecryptor of Crypto, whose writes
-- are Crypto/Master, and Gcloud with the decryption of what any reader sends (Crypto/Received). A
-- reader of the network gives its bytes in reads of any sizes, of which the last may come together
-- with the end. These copies run on fuel, one round more than there are bytes.
--
-- Listing is cmd/lomob/list-local.go and cmd/lomob/list-cloud.go (Listing/Drive): what is listed,
-- over Dbx and Gcloud. The tree of the drive has fuel for its depth.
--
-- Not modelled: the layout of what is printed and sizes as fractions, which are floats, the listing
-- of a finished image by another package, the part files that are saved on request, the times of
-- copied files, the sessions of the clients and the login, the options of the command line,
-- passwords read from the terminal, and logging.
pub mod Common
pub mod Datasize
pub mod Io
pub mod Crypto
pub mod Hash
pub mod Types
pub mod Dbx
pub mod Upload
pub mod Scan
pub mod Image
pub mod KeepDirs
pub mod Files
pub mod Client
pub mod Gcloud
pub mod Restore
pub mod Listing
