-- ===== src/Lib.antt =====
-- Verification of the API console of wso2bpel-mgr, the Swagger client that the service serves with
-- its REST interface. The console reads the Swagger description of the service, and turns what the user
-- enters for an operation into an HTTP request. Paths are below
-- wso2bpel-ext/wso2bpel-core/wso2bpel-mgr/src/main/resources/api-doc/.
--
-- Parts and files:
--
-- Js: what the scripts use of JavaScript. Js/Text: texts (indexOf, split, join, replace, the case of
-- ASCII letters). Js/Dict: an object used as a map, as an association list in the order in which its
-- keys were set. Js/Value: the values that reach the code as arguments and options; a number is a
-- natural number. Js/Uri: encodeURIComponent on the UTF-8 bytes of each code point. Js/Json:
-- JSON.stringify.
--
-- Request: the object that `execute` hands to the HTTP client (lib/swagger-client.js,
-- Operation.prototype.execute, `obj`): URL, method, headers, body, cookie jar. A header object and a
-- FormData are association lists.
--
-- Authorizations: SwaggerAuthorizations, ApiKeyAuthorization, CookieAuthorization and
-- PasswordAuthorization of lib/swagger-client.js: `add`, `remove` and `apply`, which runs all stored
-- credentials or those that a security requirement names. The base64 encoder and the cookie jar are
-- parameters of the model (Env).
--
-- Operation: Operation of lib/swagger-client.js, an operation of a Swagger 2.0 description. Types
-- holds its fields and those of a parameter; Encode the four encoders of parameters; Urlify `urlify`;
-- ContentTypes `setContentTypes` and `getHeaderParams`; Payload `getMissingParams` and `getBody`;
-- Execute `execute` up to the call of the HTTP client; Curl `asCurl` and `help`; Construct what the
-- constructor makes of parameters and responses. An exception is `none`, a message to the log is a
-- list of messages beside the result.
--
-- Resolver: Resolver of lib/swagger-client.js, which fetches what a description refers to. Resolver
-- holds resolveTo and resolveInline, an object of the description being told from others by its
-- place; Resolver/Calls the grouping of `resolve` and the callbacks of its calls, as functions of a
-- sequence of answers, since each callback runs after the loop over the hosts; Resolver/Finish
-- `finish`; Resolver/Walk how `resolve` walks over the description and begins the calls.
--
-- Schema: the types of schemas. Schema holds simpleRef, typeFromJsonSchema, getStringSignature and
-- Operation.getType; Schema/Property the constructors of Property and Model and Property.toString;
-- Schema/Signature Operation.getModelSignature and Operation.resolveModel. Models: getMockSignature of
-- the models of a description, which may refer to each other in circles; its recursion has fuel, and
-- more fuel than there are models is enough for every call (Models/Total). Schema/Sample:
-- getSampleValue, createJSONSample and sampleValue, with the two tables that they share as state and
-- fuel for the recursion.
--
-- Client: SwaggerClient.idFromOp, and the loops of SwaggerClient.buildFromSpec that bind each
-- operation of a description to the groups of its tags. The names of the members that the client has
-- before these loops are a parameter. Also its choice of scheme and host, of what parseUri finds. Client/Start:
-- initialize and build, up to what is begun, and the callbacks of build up to what follows. An operation is its name, method and path there.
--
-- Listing: what reads descriptions of the versions 1.1 and 1.2. Listing holds sanitize,
-- getAbsoluteBasePath, getMatchingParams and help; Listing/Model SwaggerModel and SwaggerModelProperty, and
-- their samples; Listing/Construct what the constructor of SwaggerOperation makes of types and parameters;
-- Listing/Resource SwaggerResource with addModels, addOperations and addApiDeclaration; Listing/Build
-- buildFrom1_2Spec and buildFrom1_1Spec and the callbacks of the calls that fetch the resources, whose
-- answers may come in any order (Listing/Build/Reach); Listing/Urlify `urlify`; Listing/Headers setHeaders
-- of SwaggerRequest; Listing/Call `do` and the rest of SwaggerRequest; Listing/Curl asCurl.
--
-- Http: SwaggerHttp.execute and isIE8, which prepare a request object for one of the two HTTP clients;
-- Http/Answer the callback of JQueryHttpClient, which reads the headers of an answer and chooses the
-- callback that it goes to; Http/Shred what ShredHttpClient makes of answers and errors. JSON.parse is a
-- parameter, since the numbers of the model are natural ones.
--
-- Oauth (lib/swagger-oauth.js): the scopes that handleLogin shows and the URL of the window that it opens,
-- handleLogout, initOAuth, and onOAuthComplete, which stores a token as a credential. The scopes that a panel
-- of the page lists, and those that are checked, are arguments.
--
-- Console (swagger-ui.js): Console/Form what submitOperation and handleFileUpload read from the elements of a
-- form, the headers of an answer (wrap), and how its content is shown (showStatus); Console/Xml formatXml;
-- Console/Pages buildUrl, the fragments of Docs, and the keys and ids of the resources, whose loop has
-- fuel: more than there are resources is enough. Console/View what OperationView.render and ParameterView.render draw
-- from (View/Scopes: the security schemes and scopes); Console/Resource MainView.initialize and the buttons
-- of MainView.render, ResourceView, whose loop over nicknames has fuel as that of the ids, and SignatureView as a
-- state that clicks change; Console/Panel what mouseEnter and mouseExit write to
-- the elements of an operation.
--
-- How they interact: a client asks for its description (Client/Start), a description is resolved (Resolver), its operations are bound to their tags
-- (Client) and its definitions become models (Schema, Models). A call of an operation (Operation)
-- fails with the parameter that getMissingParams answers, or else merges headers
-- (getHeaderParams, setContentTypes, options), builds URL and body (urlify, getBody), and has the
-- store of credentials extend the request. asCurl runs execute with the option `mock` and prints it.
--
-- A form of the page (Console/Form) gives the arguments of a call, and a login (Oauth) a credential
-- of the store. A request goes through SwaggerHttp (Http) to a client, and the answer through its callback. A client
-- of an older description (Listing/Build) fetches its resources, and is built with the last declaration
-- that it counts.
--
-- Recursion is structural, on parameters, texts or lists of values, but for getMockSignature,
-- getSampleValue and createJSONSample, which have fuel; for those of SwaggerModel more fuel than there are
-- models is enough (Listing/Model/Samples and Total).
--
-- Not modelled: the calls of jQuery.ajax and of Shred, which are libraries, the DOM, promises and callbacks,
-- and the rendering of the console page. The replacement of a template in a path is by the text of the
-- name, as for names with no character that a regular expression reads as an operator; names that are a
-- quantifier between their braces throw (is_quantifier).

pub mod Base
pub mod Js
pub mod Request
pub mod Authorizations
pub mod Operation
pub mod Schema
pub mod Resolver
pub mod Client
pub mod Http
pub mod Listing
pub mod Console
pub mod Oauth
pub mod Tests
pub mod Models
